-- ===== src/Scripts/Compiler/Samples.antt =====
-- A script that compiles, and one that does not.
use argus_rs.Base.{
  [], any, arith, false, get, if◌then◌else◌, map, nat_key, none, pair_key, refl, some, string_key,
  ◌==◌, ◌∷◌, ◌≡◌,
}
use argus_rs.Scripts.Compiler.{AnalysisResult, Engine, analyze_all, analysis_of, accesses_root}
use argus_rs.Scripts.Compiler.Cached.{analyzed, analyze_all_exact}

abbrev found : AnalysisResult
found = record {
  accessed_variables = "log.name" ∷ "logs" ∷ "tx.value" ∷ [];
  local_variables = [];
  string_comparisons = ("log.name", "Transfer" ∷ []) ∷ [];
}

abbrev engine : Engine
engine = record {
  compile_and_analyze = λ s. if s == "good" then some found else none;
  hash_script = λ s. if s == "good" then 1 else 2;
}

-- `logs` alone is not `log`.
only_log : accesses_root ("logs" ∷ []) "log" ≡ false
unfolding any
only_log = refl

names_are_found : (analysis_of found).accessed_log_event_names ≡ "Transfer" ∷ []
unfolding analysis_of get
names_are_found = refl

analyze_all_exact_example :
    (analyze_all engine ("good" ∷ "bad" ∷ []) []).0 ≡ map (analyzed engine) ("good" ∷ "bad" ∷ [])
analyze_all_exact_example = analyze_all_exact engine ("good" ∷ "bad" ∷ []) (
  ((λ e. refl), ((λ e. absurd (omega (arith, e))), tt)),
  (((λ e. absurd (omega (arith, e))), ((λ e. refl), tt)), tt),
)
