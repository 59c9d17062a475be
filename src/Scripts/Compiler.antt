-- ===== src/Scripts/Compiler.antt =====
-- crates/argus-rhai/src/compiler.rs: the analysis of scripts, and its cache. What Rhai parses and
-- rhai-analyzer finds is an argument, and so is SHA-256.
pub mod Cached
mod Samples
use argus_rs.Base.{
  Bool, HashMap, List, Option, String, [], any, get, insert, nat_key, none, pair_key, some,
  string_key, ℕ, ◌==◌, ◌||◌, ◌∷◌,
}
use Prim.Native.String.{◌++◌ as ◌+++◌}
use text.Mathlib.Text.{starts_with}
use argus_rs.Monitor.Assets.{ScriptAnalysis}

-- `ScriptAnalysisResult` of rhai-analyzer, of the tree that the engine compiles.
pub record AnalysisResult : Type 0 where
  pub accessed_variables : List String
  pub local_variables : List String
  pub string_comparisons : HashMap String (List String)

-- The engine, with the analyzer behind it: `none` where a script does not compile.
pub record Engine : Type 0 where
  pub compile_and_analyze : String → Option AnalysisResult
  pub hash_script : String → ℕ

abbrev pub Cache : Type 0
Cache = HashMap ℕ ScriptAnalysis

abbrev pub accesses_root : List String → String → Bool
accesses_root variables root = any (λ p. p == root || starts_with p (root +++ ".")) variables

abbrev pub or_no_names : Option (List String) → List String
or_no_names none = []
or_no_names (some names) = names

unfoldable pub analysis_of : AnalysisResult → ScriptAnalysis
analysis_of r = record {
  accessed_variables = r.accessed_variables;
  accesses_log_variable = accesses_root r.accessed_variables "log";
  local_variables = r.local_variables;
  accesses_call_variable = accesses_root r.accessed_variables "decoded_call";
  accessed_log_event_names = or_no_names (get r.string_comparisons "log.name");
}

-- A script that is not in the cache; an error is not cached.
abbrev pub compile_into : ℕ → Cache → Option AnalysisResult → Option ScriptAnalysis × Cache
compile_into key cache none = (none, cache)
compile_into key cache (some r) = (some (analysis_of r), insert cache key (analysis_of r))

abbrev pub or_compile :
    Engine → String → Cache → Option ScriptAnalysis → Option ScriptAnalysis × Cache
or_compile engine script cache (some cached) = (some cached, cache)
or_compile engine script cache none =
    compile_into (engine.hash_script script) cache (engine.compile_and_analyze script)

-- `none` is an error of the compilation.
unfoldable pub analyze_script : Engine → String → Cache → Option ScriptAnalysis × Cache
unfolding analysis_of
analyze_script engine script cache =
    or_compile engine script cache (get cache (engine.hash_script script))

-- A sequence of analyses.
unfoldable pub analyze_all : Engine → List String → Cache → List (Option ScriptAnalysis) × Cache
unfolding analyze_script
analyze_all engine [] cache = ([], cache)
analyze_all engine (s ∷ scripts) cache =
    let (analysis, cache') = analyze_script engine s cache in
    let (rest, cache'') = analyze_all engine scripts cache' in (analysis ∷ rest, cache'')
