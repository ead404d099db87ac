-- ===== src/Memory/Snapshots/Restored.antt =====
-- memory/service.py: restoring a snapshot.
use wastech_orchestrator.Prelude.{
  not, ◌&&◌, String, none, List, [], ◌∷◌, contains, eq_iff, if◌then◌else◌, ◌≡◌, refl, ap, inl, inr,
  arith, Bool-cases, Option-cases,
}
use wastech_orchestrator.Prelude.Dict.{Dict, get, has, get-put, get-pop}
use wastech_orchestrator.Prelude.Json.{Fields}
use wastech_orchestrator.Memory.Audit.{AuditContext}
use wastech_orchestrator.Memory.Store.{MemoryService, MemoryStore}
use wastech_orchestrator.Memory.Snapshots.{
  Snapshot, tier_candidates, take_snapshot, unlink_new, restore_files, restore,
}

-- A snapshot has the files that it is taken of.
get-take_snapshot :
    (files : Dict (List Fields)) (paths : List String) (path : String)
    → get (take_snapshot files paths) path ≡ (if contains paths path then get files path else none)
unfolding take_snapshot get
get-take_snapshot files [] path = refl
get-take_snapshot files (p ∷ paths) path = elim (Option-cases (get files p)) [
  | inl e ↦
      rw (take_snapshot, e)
        (ground (arith, eq_iff p path, get-take_snapshot files paths path, ap (get files)))
  | inr (rows, e) ↦
      rw (take_snapshot, e)
        (ground (
          arith,
          eq_iff p path,
          get-take_snapshot files paths path,
          get-put (take_snapshot files paths) p path rows,
          ap (get files),
          e,
        ))
]

get-unlink_new :
    (files : Dict (List Fields)) (snapshot : Snapshot) (paths : List String) (path : String)
    → get (unlink_new files snapshot paths) path
      ≡ (if contains paths path && not (has snapshot path) then none else get files path)
unfolding unlink_new get
get-unlink_new files snapshot [] path = refl
get-unlink_new files snapshot (p ∷ paths) path = ground (
  arith,
  eq_iff p path,
  get-unlink_new files snapshot paths path,
  get-pop (unlink_new files snapshot paths) p path,
  ap (has snapshot),
)

get-restore_files :
    (files : Dict (List Fields)) (snapshot : Snapshot) (path : String)
    → get (restore_files files snapshot) path
      ≡ (if has snapshot path then get snapshot path else get files path)
unfolding restore_files get
get-restore_files files [] path = refl
get-restore_files files ((p, rows) ∷ snapshot) path = ground (
  arith,
  get-restore_files files snapshot path,
  get-put (restore_files files snapshot) p path rows,
)

-- A tier file is, after a restore, as it was when the snapshot was taken, whatever was done to the store in
-- between; every other file is left as the restore finds it.
pub restore-take_snapshot :
    (service : MemoryService) (before now : MemoryStore) (audit : AuditContext) (path : String)
    → get (restore service now (take_snapshot before.files tier_candidates) audit).files path
      ≡ (if contains tier_candidates path then get before.files path else get now.files path)
unfolding restore
restore-take_snapshot service before now audit path =
    let snapshot = take_snapshot before.files tier_candidates in
    let taken = get-take_snapshot before.files tier_candidates path in
    let unlinked = get-unlink_new now.files snapshot tier_candidates path in
    let restored =
      get-restore_files (unlink_new now.files snapshot tier_candidates) snapshot path in
    elim (Bool-cases (contains tier_candidates path)) [
      | inl c ↦ elim (Option-cases (get before.files path)) [
        | inl e ↦ cc (c, e, taken, unlinked, restored)
        | inr (rows, e) ↦ cc (c, e, taken, restored)
      ]
      | inr c ↦ cc (c, taken, unlinked, restored)
    ]
