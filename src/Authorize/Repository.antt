-- ===== src/Authorize/Repository.antt =====
-- services/authorize_action_service.py: `UserRulesRepository`. The file system, YAML's parser and
-- SHA-256 are arguments, collected in `Files`; the object's attributes are its state.
use Prim.Native.String.{◌++◌}
use night_ledger.Prelude.{
  ℕ, String, Bool, not, ◌&&◌, Option, none, some, List, ◌==◌, str_eq, if◌then◌else◌,
}
use night_ledger.Prelude.Dict.{Dict, lookup}
use night_ledger.Prelude.Text.{is_blank, first_chars}
use night_ledger.Errors.{ok, raise, rule_configuration, uncaught}
use night_ledger.Exec.{Exec, throw, pure, lift, ◌>>=◌}
use night_ledger.Authorize.{RuleDefinition, LoadedRules, rules_or_none}
use night_ledger.Authorize.Rules.{RootNode, parse_rules_catalog}

-- What a call comes back with, the text of its OSError or YAMLError, or the class of another
-- exception, such as that of a text which is not UTF-8.
pub data Read (A : Type 0) : Type 0 where
  found : A → Read A
  failed : String → Read A
  broken : String → Read A

pub record Files : Type 0 where
  pub expanduser : String → String
  pub is_file : String → Bool
  pub mtime_ns : String → Read ℕ
  pub read_text : String → Read String
  pub safe_load : String → Read RootNode
  pub sha256 : String → String

-- `_cached_path`, `_cached_mtime_ns` and `_cached_loaded`, which are set together.
pub record Cached : Type 0 where
  pub path : String
  pub mtime_ns : ℕ
  pub loaded : LoadedRules

abbrev pub Repository : Type 0
Repository = Option Cached

abbrev pub required : Exec Repository LoadedRules
required = throw (
    rule_configuration
      "NIGHTLEDGER_USER_RULES_FILE is required for authorize_action policy evaluation")

module _ (files : Files) where
  abbrev pub loaded_of : String → String → Dict (List RuleDefinition) → LoadedRules
  loaded_of path raw rules = record {
    rules_by_user = rules;
    source_path = path;
    ruleset_hash = "sha256:" ++ files.sha256 raw;
    catalog_version = "pol_" ++ first_chars 12 (files.sha256 raw);
  }

  abbrev pub store_loaded : String → ℕ → LoadedRules → Exec Repository LoadedRules
  store_loaded path mtime loaded repository =
      (some (record { path = path; mtime_ns = mtime; loaded = loaded }), ok loaded)

  abbrev pub load_parsed : String → ℕ → String → Read RootNode → Exec Repository LoadedRules
  load_parsed path mtime raw (failed text) =
      throw (rule_configuration ("Rule file '" ++ path ++ "' contains invalid YAML: " ++ text))
  load_parsed path mtime raw (broken name) = throw (uncaught name)
  load_parsed path mtime raw (found parsed) = lift (parse_rules_catalog parsed) >>= λ rules.
      store_loaded path mtime (loaded_of path raw rules)

  abbrev pub load_text : String → ℕ → Read String → Exec Repository LoadedRules
  load_text path mtime (failed text) =
      throw (rule_configuration ("Could not read rule file '" ++ path ++ "': " ++ text))
  load_text path mtime (broken name) = throw (uncaught name)
  load_text path mtime (found raw) = load_parsed path mtime raw (files.safe_load raw)

  -- The rules that are cached for this file, if it was not changed.
  abbrev pub cached_rules : String → ℕ → Repository → Option LoadedRules
  cached_rules path mtime none = none
  cached_rules path mtime (some cached) =
      if str_eq cached.path path && cached.mtime_ns == mtime then some cached.loaded else none

  abbrev pub or_load : String → ℕ → Option LoadedRules → Exec Repository LoadedRules
  or_load path mtime (some loaded) = pure loaded
  or_load path mtime none = load_text path mtime (files.read_text path)

  abbrev pub load_stat : String → Read ℕ → Exec Repository LoadedRules
  load_stat path (failed text) repository = (
    repository,
    raise (rule_configuration ("Could not stat rule file '" ++ path ++ "': " ++ text)),
  )
  load_stat path (broken name) repository = (repository, raise (uncaught name))
  load_stat path (found mtime) repository =
      or_load path mtime (cached_rules path mtime repository) repository

  abbrev pub load_path : String → Exec Repository LoadedRules
  load_path path repository =
      let loaded = load_stat path (files.mtime_ns path) repository in
      if not (files.is_file path)
      then (
        repository,
        raise (rule_configuration ("Rule file '" ++ path ++ "' does not exist or is not a file")),
      )
      else loaded

  -- `_load_rules`, with the value of `NIGHTLEDGER_USER_RULES_FILE`.
  unfoldable pub load_rules : Option String → Exec Repository LoadedRules
  load_rules none repository = required repository
  load_rules (some rules_file) repository =
      let loaded = load_path (files.expanduser rules_file) repository in
      if is_blank rules_file then required repository else loaded

  -- `rules_for_user`
  unfoldable pub rules_for_user : Option String → String → Exec Repository (List RuleDefinition)
  unfolding load_rules
  rules_for_user rules_file user_id =
      load_rules rules_file >>= λ loaded. pure (rules_or_none (lookup user_id loaded.rules_by_user))
