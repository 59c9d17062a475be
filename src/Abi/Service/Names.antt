-- ===== src/Abi/Service/Names.antt =====
-- The event that a log is peeked at by is the one that it decodes to.
use argus_rs.Base.{
  remove-Every, insert-Every, All, Bool-cases, HashMap, List, Option-cases, Result-cases, String,
  [], arith, get, get-insert, if◌then◌else◌, inl, inr, nat_key, string_key, ℕ, ◌++◌, ◌==◌, ◌∷◌, ◌≡◌,
}
use argus_rs.Core.Chain.{push_under}
use argus_rs.Abi.Contracts.{JsonAbi}
use argus_rs.Abi.Service.{
  Alloy, AbiService, new, register_abi, named_contract, index_under, add_global_abi, link_abi,
  remove_abi, list_of,
}
use argus_rs.Abi.Service.Naming.{AbiIsNamed, IsNamed, NamesEvents, named_contract-IsNamed}

All-snoc :
    {A : Type 0} (P : A → Type 0) (xs : List A) (a : A) → All P xs → P a → All P (xs ++ a ∷ [])
All-snoc P [] a h p = (p, tt)
All-snoc P (x ∷ xs) a h p = (h.0, All-snoc P xs a h.1 p)

push_under-get :
    {A : Type 0} (key j : ℕ) (a : A) (m : HashMap ℕ (List A))
    → list_of (get (push_under key a m) j)
      ≡ (if key == j then list_of (get m key) ++ a ∷ [] else list_of (get m j))
unfolding push_under
push_under-get key j a m = elim (Option-cases (get m key)) [
  | inl fresh ↦ rw fresh (ground (arith, get-insert m key j (a ∷ [])))
  | inr (vs, found) ↦ rw found (ground (arith, get-insert m key j (vs ++ a ∷ [])))
]

push_under-All :
    {A : Type 0} (P : A → Type 0) (key j : ℕ) (a : A) (m : HashMap ℕ (List A))
    → P a
    → ((i : ℕ) → All P (list_of (get m i)))
    → All P (list_of (get (push_under key a m) j))
push_under-All P key j a m p h = rw (push_under-get key j a m) (elim (Bool-cases (key == j)) [
  | inl same ↦ rw same (All-snoc P (list_of (get m key)) a (h key) p)
  | inr other ↦ rw other (h j)
])

index_under-All :
    {A V : Type 0} (P : A → Type 0) (items : HashMap ℕ V) (a : A) (m : HashMap ℕ (List A))
    → P a
    → ((i : ℕ) → All P (list_of (get m i)))
    → (j : ℕ) → All P (list_of (get (index_under items a m) j))
unfolding index_under
index_under-All P [] a m p h = h
index_under-All P ((k, v) ∷ items) a m p h =
    index_under-All P items a (push_under k a m) p (λ i. push_under-All P k i a m p h)

-- What the service is told: registrations, links to addresses, global ABIs and removals.
pub data Step {SolType : Type 0} (alloy : Alloy SolType) (names : ℕ → String)
    : AbiService SolType → AbiService SolType → Type 0 where
  register :
      (s : AbiService SolType) (name : String) (abi : JsonAbi)
      → AbiIsNamed names abi
      → Step alloy names s (register_abi name abi s)
  link :
      (s : AbiService SolType) (address : ℕ) (abi_name : String)
      → Step alloy names s (link_abi alloy address abi_name s).1
  add_global :
      (s : AbiService SolType) (abi_name : String)
      → Step alloy names s (add_global_abi alloy abi_name s).1
  unlink : (s : AbiService SolType) (address : ℕ) → Step alloy names s (remove_abi address s).1

pub data Reach {SolType : Type 0} (alloy : Alloy SolType) (names : ℕ → String)
    : AbiService SolType → Type 0 where
  start : Reach alloy names new
  next :
      {s t : AbiService SolType} → Reach alloy names s → Step alloy names s t → Reach alloy names t

register_abi-NamesEvents :
    {SolType : Type 0} {names : ℕ → String} (s : AbiService SolType) (name : String) (abi : JsonAbi)
    → AbiIsNamed names abi
    → NamesEvents names s
    → NamesEvents names (register_abi name abi s)
unfolding register_abi
register_abi-NamesEvents {names} s name abi named h = record {
  registered = insert-Every (AbiIsNamed names) s.named_abis name abi named h.registered;
  linked = h.linked;
  indexed = h.indexed;
}

link_abi-NamesEvents :
    {SolType : Type 0} {names : ℕ → String} (alloy : Alloy SolType) (s : AbiService SolType)
    (address : ℕ) (abi_name : String)
    → NamesEvents names s
    → NamesEvents names (link_abi alloy address abi_name s).1
unfolding link_abi
link_abi-NamesEvents {names} alloy s address abi_name h =
    elim (Result-cases (named_contract alloy abi_name s)) [
      | inr (e, failed') ↦ rw (failed', link_abi) h
      | inl (c, made) ↦
          rw (made, link_abi)
            (record {
              registered = h.registered;
              linked =
                  insert-Every (IsNamed names) s.address_specific_cache address c
                    (named_contract-IsNamed alloy abi_name s h made) h.linked;
              indexed = h.indexed;
            })
    ]

add_global_abi-NamesEvents :
    {SolType : Type 0} {names : ℕ → String} (alloy : Alloy SolType) (s : AbiService SolType)
    (abi_name : String)
    → NamesEvents names s
    → NamesEvents names (add_global_abi alloy abi_name s).1
unfolding add_global_abi
add_global_abi-NamesEvents {names} alloy s abi_name h =
    elim (Result-cases (named_contract alloy abi_name s)) [
      | inr (e, failed') ↦ rw (failed', add_global_abi) h
      | inl (c, made) ↦
          rw (made, add_global_abi)
            (record {
              registered = h.registered;
              linked = h.linked;
              indexed =
                  index_under-All (IsNamed names) c.events c s.global_event_index
                    (named_contract-IsNamed alloy abi_name s h made) h.indexed;
            })
    ]

Step-NamesEvents :
    {SolType : Type 0} {alloy : Alloy SolType} {names : ℕ → String} {s t : AbiService SolType}
    → Step alloy names s t
    → NamesEvents names s
    → NamesEvents names t
unfolding remove_abi
Step-NamesEvents (register s name abi named) h = register_abi-NamesEvents s name abi named h
Step-NamesEvents {alloy} (link s address abi_name) h =
    link_abi-NamesEvents alloy s address abi_name h
Step-NamesEvents {alloy} (add_global s abi_name) h = add_global_abi-NamesEvents alloy s abi_name h
Step-NamesEvents {names} (unlink s address) h = record {
  registered = h.registered;
  linked = remove-Every (IsNamed names) s.address_specific_cache address h.linked;
  indexed = h.indexed;
}

new-NamesEvents :
    {SolType : Type 0} {names : ℕ → String} → NamesEvents {SolType = SolType} names new
unfolding get
new-NamesEvents = record {
  registered = λ name abi found. absurd (cc);
  linked = λ address c found. absurd (cc);
  indexed = λ signature. tt;
}

pub Reach-NamesEvents :
    {SolType : Type 0} {alloy : Alloy SolType} {names : ℕ → String} {s : AbiService SolType}
    → Reach alloy names s
    → NamesEvents names s
Reach-NamesEvents start = new-NamesEvents
Reach-NamesEvents (next r step) = Step-NamesEvents step (Reach-NamesEvents r)
