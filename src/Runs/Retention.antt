-- ===== src/Runs/Retention.antt =====
-- backend/app/storage.py: the sweep that removes the directories of old runs. Times are in
-- milliseconds; an entry of the directory of runs is what the file system answers about it, where no
-- time is its error. A removal of a directory succeeds.
use ocspcrltesting.Settings.{Settings}
use ocspcrltesting.Authz.{WorkspaceContext}
use ocspcrltesting.Schema.{Db}
use ocspcrltesting.Ssrf.Url.{ParsedUrl, Resolver}
use ocspcrltesting.Jobs.{RunStore}
use ocspcrltesting.Runs.{get_run_or_404}
use ocspcrltesting.Runs.Storage.{RunDirs, has_slot, uploads_of}
use ocspcrltesting.Runs.Creation.{Created, as_unprocessable, without_saved, rerun_run}
use ocspcrltesting.Schemas.{model_validate}
use ocspcrltesting.Prelude.{
  ℕ, ◌+◌, ◌*◌, String, ◌≡◌, refl, ◌∙◌, Bool, true, false, ◌&&◌, ◌||◌, Option, none, some, List, [],
  ◌∷◌, arith, suc, str_eq, ◌==◌, ltb, any, if◌then◌else◌, ok, >>=-eq-ok, guard-eq-ok,
}

pub record Entry : Type 0 where
  pub name : String
  pub is_dir : Bool
  pub modified : Option ℕ

abbrev day : ℕ
day = 86400000

abbrev before : ℕ → ℕ → Option ℕ → Bool
before retention_days now none = false
before retention_days now (some modified) = ltb (modified + retention_days * day) now

abbrev is_expired : Settings → ℕ → Entry → Bool
is_expired settings now entry = entry.is_dir && before settings.retention_days now entry.modified

abbrev without_dir : String → RunDirs → RunDirs
without_dir name dirs run_id = if str_eq run_id name then none else dirs run_id

unfoldable pub remove_expired : Settings → ℕ → List Entry → RunDirs → ℕ × RunDirs
remove_expired settings now [] dirs = (0, dirs)
remove_expired settings now (entry ∷ entries) dirs =
    let old = is_expired settings now entry in
    let (count, kept) =
      remove_expired settings now entries (if old then without_dir entry.name dirs else dirs) in
    (if old then suc count else count, kept)

-- No entries where the directory of runs does not exist.
unfoldable pub sweep_expired_workspaces : Settings → ℕ → Option (List Entry) → RunDirs → ℕ × RunDirs
sweep_expired_workspaces settings now none dirs = (0, dirs)
sweep_expired_workspaces settings now (some entries) dirs =
    if settings.retention_days == 0 then (0, dirs) else remove_expired settings now entries dirs

cleared :
    (entry : Entry) (dirs : RunDirs) (run_id : String) (old later : Bool)
    → (if later then none else (if old then without_dir entry.name dirs else dirs) run_id)
      ≡ (if (str_eq run_id entry.name && old) || later then none else dirs run_id)
cleared entry dirs run_id old later = ground arith

-- The directory of a run that has an expired entry, and of no other, is gone.
removed :
    (settings : Settings) (now : ℕ) (entries : List Entry) (dirs : RunDirs) (run_id : String)
    → (remove_expired settings now entries dirs).1 run_id ≡ (
        if any (λ e. str_eq run_id e.name && is_expired settings now e) entries
        then none
        else dirs run_id)
unfolding remove_expired
removed settings now [] dirs run_id = refl
removed settings now (entry ∷ entries) dirs run_id =
    removed settings now entries
      (if is_expired settings now entry then without_dir entry.name dirs else dirs) run_id
    ∙ cleared entry dirs run_id (is_expired settings now entry)
        (any (λ e. str_eq run_id e.name && is_expired settings now e) entries)

-- A sweep removes the directories of the runs with an expired entry, and no other.
pub sweep_expired_workspaces-dirs :
    (settings : Settings) (now : ℕ) (entries : List Entry) (dirs : RunDirs) (run_id : String)
    → (settings.retention_days == 0) ≡ false
    → (sweep_expired_workspaces settings now (some entries) dirs).1 run_id ≡ (
        if any (λ e. str_eq run_id e.name && is_expired settings now e) entries
        then none
        else dirs run_id)
unfolding sweep_expired_workspaces
sweep_expired_workspaces-dirs settings now entries dirs run_id on =
    rw on (removed settings now entries dirs run_id)

-- Without its directory a run is not repeated.
not_repeated :
    (settings : Settings) (resolve : Resolver) (parse : String → ParsedUrl) (run_id new_id : String)
    (now : ℕ) (ctx : WorkspaceContext) (db : Db) (s : RunStore) (dirs : RunDirs) (made : Created)
    → dirs run_id ≡ none
    → ¬ (rerun_run settings resolve parse run_id new_id now ctx db s dirs ≡ ok made)
unfolding rerun_run
not_repeated settings resolve parse run_id new_id now ctx db s dirs made gone h =
    let (prior, shown, h₁) = >>=-eq-ok (get_run_or_404 s run_id ctx) _ h in
    let (config, got, h₂) =
      >>=-eq-ok (as_unprocessable (model_validate (without_saved prior.config.config))) _ h₁ in
    let (there, h₃) = guard-eq-ok (has_slot "issuer_cert" (uploads_of dirs run_id)) _ _ h₂ in
    let none_there : has_slot "issuer_cert" (uploads_of dirs run_id) ≡ false =
      rw (uploads_of, gone) refl in
    absurd (ground (arith, there, none_there))

-- After a sweep, a run with an expired entry is not repeated.
swept_not_repeated :
    (settings : Settings) (later : ℕ) (entries : List Entry) (dirs : RunDirs) (resolve : Resolver)
    (parse : String → ParsedUrl) (run_id new_id : String) (now : ℕ) (ctx : WorkspaceContext)
    (db : Db) (s : RunStore) (made : Created)
    → (settings.retention_days == 0) ≡ false
    → any (λ e. str_eq run_id e.name && is_expired settings now e) entries ≡ true
    → ¬ (
        rerun_run settings resolve parse run_id new_id later ctx db s
          (sweep_expired_workspaces settings now (some entries) dirs).1
        ≡ ok made)
swept_not_repeated settings later entries dirs resolve parse run_id new_id now ctx db s made on
      old =
    not_repeated settings resolve parse run_id new_id later ctx db s
      (sweep_expired_workspaces settings now (some entries) dirs).1 made
      (sweep_expired_workspaces-dirs settings now entries dirs run_id on ∙ rw old refl)
