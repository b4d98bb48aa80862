-- ===== src/Tasks/Repository.antt =====
-- src/task/infrastructure/persistence/task.repository.ts, but for its lists and statistics. `save` of
-- a loaded document is Mongoose's, through the interface `Versioned`; a `VersionError` that nothing
-- catches is answered as an internal error.
use Prim.Native.String.{◌++◌ as append}
use task_manager_api.Prelude.{
  ℕ, Bool, true, ◌&&◌, not, Option, none, some, List, [], ◌∷◌, ◌++◌, ◌==◌, String, if◌then◌else◌,
  Result, ok, err, not_found, internal_error,
}
use task_manager_api.Platform.Collection.{Collection}
use task_manager_api.Platform.Versioned.{Versioned}
use task_manager_api.Tasks.{Task, Comment, Attachment, CreateTaskDto, new_task, next_version}

-- The filter of the lookups: the task is in the workspace and is not deleted.
unfoldable pub is_live_in : ℕ → Task → Bool
is_live_in workspace t = t.workspace == workspace && not t.is_deleted

-- The document where it matches.
unfoldable pub live_in : ℕ → Option Task → Option Task
unfolding is_live_in
live_in workspace none = none
live_in workspace (some t) = if is_live_in workspace t then some t else none

-- The changes that the operations make to a document.
unfoldable pub removed : (now : ℕ) → Task → Task
removed now t = record t { is_deleted = true; deleted_at = some now }

unfoldable pub with_attachment : Attachment → Task → Task
with_attachment a t = record t { attachments = t.attachments ++ (a ∷ []) }

unfoldable pub find_attachment : ℕ → List Attachment → Option Attachment
find_attachment id [] = none
find_attachment id (a ∷ rest) = if a.id == id then some a else find_attachment id rest

unfoldable pub without : ℕ → List Attachment → List Attachment
without id [] = []
without id (a ∷ rest) = let kept = without id rest in if a.id == id then kept else a ∷ kept

unfoldable pub without_attachment : ℕ → Task → Task
unfolding without
without_attachment id t = record t { attachments = without id t.attachments }

unfoldable pub with_comment : Comment → Task → Task
with_comment c t = record t { comments = t.comments ++ (c ∷ []) }

unfoldable pub with_assignees : List ℕ → Task → Task
with_assignees ids t = record t { assignees = ids }

-- `file` of an upload.
pub record File : Type 0 where
  pub filename : String
  pub mimetype : String
  pub size : ℕ

module _ (db : Collection Task) (docs : Versioned db (λ t. t.version) next_version) where
  unfoldable pub create :
      CreateTaskDto → (owner workspace fresh : ℕ) → db.Store → (ℕ × Task) × db.Store
  unfolding new_task
  create dto owner workspace fresh s =
      let t = new_task dto owner workspace in ((fresh, t), db.insert fresh t s)

  unfoldable pub find_by_id : (id workspace : ℕ) → db.Store → Option Task
  unfolding live_in
  find_by_id id workspace s = live_in workspace (db.find_by_id id s)

  -- `populate` of the owner and of the category is left to the commands that read them.
  unfoldable pub find_authorized_task : (id workspace : ℕ) → db.Store → Result Task
  unfolding live_in
  find_authorized_task id workspace s = elim (live_in workspace (db.find_by_id id s)) [
    | none ↦ err not_found
    | some t ↦ ok t
  ]

  unfoldable pub update : (id workspace : ℕ) → (Task → Task) → db.Store → Option Task × db.Store
  unfolding is_live_in
  update id workspace change s = db.find_one_and_update id (is_live_in workspace) change s

  unfoldable pub delete : (id workspace now : ℕ) → db.Store → db.Store
  unfolding is_live_in removed
  delete id workspace now s = (db.find_one_and_update id (is_live_in workspace) (removed now) s).1

  -- A document with its changes is saved; it is returned with its new version.
  unfoldable pub save : ℕ → Task → (Task → Task) → db.Store → Option Task × db.Store
  save id t change s =
      let (saved, s') = docs.save id t change s in
      let after = change t in
      (
        if saved
            then some (if docs.is_modified t after then next_version after else after)
            else none,
        s',
      )

  -- `save` where nothing catches its error.
  unfoldable pub save_or_fail : ℕ → Task → (Task → Task) → db.Store → Result Task × db.Store
  unfolding save
  save_or_fail id t change s =
      let (saved, s') = save id t change s in
      (elim saved [ none ↦ err internal_error | some t' ↦ ok t' ], s')

  unfoldable pub upload_attachment : ℕ → File → (fresh : ℕ) → db.Store → Result Task × db.Store
  unfolding save_or_fail with_attachment
  upload_attachment id file fresh s = elim (db.find_by_id id s) [
    | none ↦ (err not_found, s)
    | some t ↦
        save_or_fail id t
          (with_attachment (record {
            id = fresh;
            filename = file.filename;
            mime = file.mimetype;
            size = file.size;
            url = append "/uploads/" file.filename;
          }))
          s
  ]

  unfoldable pub delete_attachment : (id attachment_id : ℕ) → db.Store → Result Task × db.Store
  unfolding save_or_fail find_attachment without_attachment
  delete_attachment id attachment_id s = elim (db.find_by_id id s) [
    | none ↦ (err not_found, s)
    | some t ↦ elim (find_attachment attachment_id t.attachments) [
      | none ↦ (err not_found, s)
      | some a ↦ save_or_fail id t (without_attachment attachment_id) s
    ]
  ]

  unfoldable pub add_comment :
      ℕ → (body : String) → (author now : ℕ) → db.Store → Result Task × db.Store
  unfolding save_or_fail with_comment
  add_comment id body author now s = elim (db.find_by_id id s) [
    | none ↦ (err not_found, s)
    | some t ↦
        save_or_fail id t (with_comment (record { author = author; body = body; created_at = now }))
          s
  ]

  unfoldable pub assign_users : ℕ → List ℕ → db.Store → Result Task × db.Store
  unfolding save_or_fail with_assignees
  assign_users id users s = elim (db.find_by_id id s) [
    | none ↦ (err not_found, s)
    | some t ↦ save_or_fail id t (with_assignees users) s
  ]

  -- `getAttachments`, and `getComments` but for the authors.
  unfoldable pub get_task : ℕ → db.Store → Result Task
  get_task id s = elim (db.find_by_id id s) [ none ↦ err not_found | some t ↦ ok t ]
