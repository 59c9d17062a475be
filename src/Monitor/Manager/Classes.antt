-- ===== src/Monitor/Manager/Classes.antt =====
-- No monitor that is in service is forgotten.
use argus_rs.Base.{
  Bool-cases, Option-cases, inl, inr, some, ap, ◌++◌, Bool, List, [], any, arith, contains, false,
  nat_key, not, refl, string_key, true, ℕ, ◌&&◌, ◌==◌, ◌||◌, ◌∷◌, ◌≡◌,
}
use argus_rs.Monitor.Assets.{Monitor, Services, ClassifiedMonitor}
use argus_rs.Monitor.Manager.{
  is_active, classify_monitor, classify_all, is_tx_aware, push_if, tx_aware, log_aware, classes,
  organize_assets,
}

abbrev pub has_monitor_id : ℕ → ClassifiedMonitor → Bool
has_monitor_id i cm = cm.monitor.id == i

contains-push_if :
    (b : Bool) (id : ℕ) (ids : List ℕ) (i : ℕ)
    → contains (push_if b id ids) i ≡ (contains ids i || (b && id == i))
unfolding contains
contains-push_if true id ids i = ground arith
contains-push_if false id ids i = ground arith

either_list :
    (cms : List ClassifiedMonitor) (i : ℕ)
    → (contains (tx_aware cms) i || contains (log_aware cms) i) ≡ any (has_monitor_id i) cms
unfolding tx_aware log_aware any contains
either_list [] i = refl
either_list (cm ∷ cms) i = ground (
  arith,
  either_list cms i,
  contains-push_if (is_tx_aware cm.caps || not cm.caps.log) cm.monitor.id (tx_aware cms) i,
  contains-push_if cm.caps.log cm.monitor.id (log_aware cms) i,
)

-- The monitors that are evaluated against transactions or against logs are exactly the active ones
-- whose scripts can be analyzed.
organize_assets_complete :
    (services : Services) (monitors : List Monitor) (i : ℕ)
    → (contains (organize_assets services monitors).tx_aware_monitors i
        || contains (organize_assets services monitors).log_aware_monitors i)
      ≡ any (has_monitor_id i) (classes (classify_all services monitors))
unfolding organize_assets
organize_assets_complete services monitors i =
    either_list (classes (classify_all services monitors)) i

-- An active monitor whose script can be analyzed is classified where it stands.
pub classify_all-at :
    (services : Services) (before : List Monitor) (m : Monitor) (behind : List Monitor)
    {c : ClassifiedMonitor × Bool}
    → is_active m.status ≡ true
    → classify_monitor services m ≡ some c
    → classes (classify_all services (before ++ m ∷ behind))
      ≡ classes (classify_all services before) ++ c.0 ∷ classes (classify_all services behind)
unfolding classify_all
classify_all-at services [] m behind on classed = rw (on, classed) refl
classify_all-at services (x ∷ before) m behind on classed =
    let rest = classify_all-at services before m behind on classed in
    elim (Bool-cases (is_active x.status)) [
      | inr paused ↦ rw paused rest
      | inl active ↦ rw active (elim (Option-cases (classify_monitor services x)) [
        | inl failed ↦ rw failed rest
        | inr (d, found) ↦ rw found (ap (λ l. d.0 ∷ l) rest)
      ])
    ]
