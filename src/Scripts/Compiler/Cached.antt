-- ===== src/Scripts/Compiler/Cached.antt =====
-- The cache changes no analysis.
use argus_rs.Base.{
  ==_refl, All, Bool-cases, List, Option, String, [], ap, contains, get, get-insert, if◌then◌else◌,
  inl, inr, insert, map, nat_key, none, none-ne-some, or_true, pair_key, refl, some, string_key,
  sym, true, true-ne-false, ◌==◌, ◌||◌, ◌∙◌, ◌∷◌, ◌≡◌,
}
use mathlib.Core.Path.{subst}
use argus_rs.Monitor.Assets.{ScriptAnalysis}
use argus_rs.Scripts.Compiler.{
  AnalysisResult, Engine, Cache, analysis_of, compile_into, or_compile, analyze_script, analyze_all,
}

-- The analysis without a cache.
abbrev pub analyzed : Engine → String → Option ScriptAnalysis
analyzed engine script = elim (engine.compile_and_analyze script) [
  | none ↦ none
  | some r ↦ some (analysis_of r)
]

-- No two of the scripts have one hash.
abbrev pub HasNoCollisions : Engine → List String → Type 0
HasNoCollisions engine scripts =
    All (λ s. All (λ t. engine.hash_script s ≡ engine.hash_script t → s ≡ t) scripts) scripts

-- What is cached under the hash of one of the scripts is its analysis.
abbrev IsFaithful : Engine → List String → Cache → Type 0
IsFaithful engine scripts cache =
    (s : String) (a : ScriptAnalysis)
    → contains scripts s ≡ true
    → get cache (engine.hash_script s) ≡ some a
    → analyzed engine s ≡ some a

All-contained :
    (P : String → Type 0) (xs : List String) (s : String) → All P xs → contains xs s ≡ true → P s
unfolding contains
All-contained P [] s all found = absurd (true-ne-false (sym found))
All-contained P (x ∷ xs) s all found = elim (Bool-cases (x == s)) [
  | inl same ↦ subst P ((string_key.decides x s).0 same) all.0
  | inr other ↦ All-contained P xs s all.1 (sym (ap (λ b. b || contains xs s) other) ∙ found)
]

All-contains :
    (ys xs : List String)
    → ((s : String) → contains ys s ≡ true → contains xs s ≡ true)
    → All (λ s. contains xs s ≡ true) ys
unfolding contains
All-contains [] xs h = tt
All-contains (y ∷ ys) xs h = (
  h y (ap (λ b. b || contains ys y) (==_refl y)),
  All-contains ys xs (λ s found. h s (ap (λ b. (y == s) || b) found ∙ or_true (y == s))),
)

module _ (engine : Engine) (scripts : List String) (unique : HasNoCollisions engine scripts) where
  stored-IsFaithful :
      (script : String) (cache : Cache) (r : AnalysisResult)
      → contains scripts script ≡ true
      → IsFaithful engine scripts cache
      → engine.compile_and_analyze script ≡ some r
      → IsFaithful engine scripts (insert cache (engine.hash_script script) (analysis_of r))
  stored-IsFaithful script cache r among faithful compiled s a s_among found =
      elim (Bool-cases (engine.hash_script script == engine.hash_script s)) [
        | inl same ↦
            let hashes : engine.hash_script script ≡ engine.hash_script s =
              (nat_key.decides (engine.hash_script script) (engine.hash_script s)).0 same in
            let one =
              All-contained
                (λ x. All (λ t. engine.hash_script x ≡ engine.hash_script t → x ≡ t) scripts)
                scripts script unique among in
            let is_script : script ≡ s =
              All-contained (λ t. engine.hash_script script ≡ engine.hash_script t → script ≡ t)
                scripts s one s_among hashes in
            subst (λ x. analyzed engine x ≡ some a) is_script
              (ap
                  (λ o. elim o as (λ x. Option ScriptAnalysis) [
                    | none ↦ none
                    | some r' ↦ some (analysis_of r')
                  ])
                  compiled
                ∙ sym (
                    ap (λ b. if b then some (analysis_of r) else get cache (engine.hash_script s))
                      same)
                ∙ sym (
                    get-insert cache (engine.hash_script script) (engine.hash_script s)
                      (analysis_of r))
                ∙ found)
        | inr other ↦ faithful s a s_among (
            sym
              (ap (λ b. if b then some (analysis_of r) else get cache (engine.hash_script s)) other)
            ∙ sym (
                get-insert cache (engine.hash_script script) (engine.hash_script s) (analysis_of r))
            ∙ found)
      ]

  analyze_script-IsFaithful :
      (script : String) (cache : Cache)
      → contains scripts script ≡ true
      → IsFaithful engine scripts cache
      → ((analyze_script engine script cache).0 ≡ analyzed engine script)
        × IsFaithful engine scripts (analyze_script engine script cache).1
  unfolding analyze_script
  analyze_script-IsFaithful script cache among faithful =
      by_entry (get cache (engine.hash_script script)) refl
    where
      by_compile :
          (o : Option AnalysisResult)
          → engine.compile_and_analyze script ≡ o
          → ((compile_into (engine.hash_script script) cache o).0
              ≡ (elim o [ none ↦ none | some r ↦ some (analysis_of r) ]))
            × IsFaithful engine scripts (compile_into (engine.hash_script script) cache o).1
      by_compile none e = (refl, faithful)
      by_compile (some r) e = (refl, stored-IsFaithful script cache r among faithful e)

      by_entry :
          (entry : Option ScriptAnalysis)
          → get cache (engine.hash_script script) ≡ entry
          → ((or_compile engine script cache entry).0 ≡ analyzed engine script)
            × IsFaithful engine scripts (or_compile engine script cache entry).1
      by_entry (some cached) e = (sym (faithful script cached among e), faithful)
      by_entry none e = by_compile (engine.compile_and_analyze script) refl

  analyze_from :
      (ss : List String) (cache : Cache)
      → All (λ s. contains scripts s ≡ true) ss
      → IsFaithful engine scripts cache
      → (analyze_all engine ss cache).0 ≡ map (analyzed engine) ss
  unfolding analyze_all
  analyze_from [] cache among faithful = refl
  analyze_from (s ∷ ss) cache among faithful =
      let (same, kept) = analyze_script-IsFaithful s cache among.0 faithful in
      ap (λ a. a ∷ (analyze_all engine ss (analyze_script engine s cache).1).0) same
      ∙ ap (λ l. analyzed engine s ∷ l)
          (analyze_from ss (analyze_script engine s cache).1 among.1 kept)

-- Where no two of the scripts have one hash: a compiler that starts with an empty cache and analyzes the
-- scripts one after the other, each as often as it stands there, gives each the analysis that compiling
-- it anew gives, and an error where that fails.
pub analyze_all_exact :
    (engine : Engine) (scripts : List String)
    → HasNoCollisions engine scripts
    → (analyze_all engine scripts []).0 ≡ map (analyzed engine) scripts
unfolding get
analyze_all_exact engine scripts unique =
    analyze_from engine scripts unique scripts [] (All-contains scripts scripts (λ s h. h))
      (λ s a among e. absurd (none-ne-some e))
