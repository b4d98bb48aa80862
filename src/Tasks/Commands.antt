-- ===== src/Tasks/Commands.antt =====
-- src/task/application/commands but for update-task: create-task, delete-task, assign-task,
-- create-comment, upload-attachment and delete-attachment; and the query get-tasks.
use task_manager_api.Prelude.{
  ℕ, Bool, true, false, Option, none, some, List, [], ◌∷◌, String, is_some, every, if◌then◌else◌,
  Result, ok, err, not_found, forbidden, internal_error,
}
use task_manager_api.Authorization.{WorkspaceRole, owner, admin}
use task_manager_api.Outbox.{request}
use task_manager_api.Outbox
use task_manager_api.Audit
use task_manager_api.Tasks.{
  Task, Attachment, CreateTaskDto, created, deleted, comment_added, attachment_added,
  attachment_deleted, task_created, task_deleted,
}
use task_manager_api.Tasks.Repository.{
  File, removed, find_attachment, find_authorized_task, save_or_fail,
}
use task_manager_api.Tasks.Repository
use task_manager_api.Tasks.Lists.{Key, Page}
use task_manager_api.Tasks.Listing.{find_all}
use task_manager_api.Tasks.World.{
  TaskEnv, Seen, TaskWorld, TaskCreated, audit_task, with_activity, clear_lists, emit,
}

-- What a command draws: the time, the fresh ids and the id of the HTTP request.
pub record Draw : Type 0 where
  pub now : ℕ
  pub fresh : ℕ
  pub event_id : ℕ
  pub correlation_id : Option String

unfoldable pub may_assign : WorkspaceRole → Bool
may_assign owner = true
may_assign admin = true
may_assign _ = false

module _ (env : TaskEnv) where
  -- The transaction of a creation: the task, its activity and its event.
  unfoldable pub created_world :
      CreateTaskDto → (user workspace : ℕ) → Draw → TaskWorld env → (ℕ × Task) × TaskWorld env
  unfolding Repository.create with_activity Outbox.create
  created_world dto user workspace d w =
      let ((id, t), tasks) =
        Repository.create env.tasks env.docs dto user workspace d.fresh w.tasks in
      let w1 = with_activity env id user created "Task created" none (record w { tasks = tasks }) in
      let payload : TaskCreated = record { task_id = id; owner_id = t.owner; title = t.title } in
      let (event_id, event, events) =
        Outbox.create env.events
          (request d.correlation_id none "TASK_CREATED" "TASK" id (some workspace) payload)
          d.event_id d.now w1.events in
      ((id, t), record w1 { events = events })

  unfoldable pub create_task :
      Seen
      → CreateTaskDto
      → (user workspace : ℕ) → Draw
      → TaskWorld env
      → Result (ℕ × Task) × TaskWorld env
  unfolding created_world audit_task clear_lists emit
  create_task seen dto user workspace d w =
      let finish : Result (ℕ × Task) × TaskWorld env =
        let ((id, t), w1) = created_world dto user workspace d w in
        let w2 =
          audit_task env user "TASK_CREATED" "TASK" workspace (("taskId", Audit.id id) ∷ []) w1 in
        (ok (id, t), emit env (task_created (env.id_text user) id) (clear_lists env w2)) in
      elim (seen.role_of workspace user) [
        | none ↦ (err forbidden, w)
        | some _ ↦ elim dto.category [
          | none ↦ finish
          | some c ↦ if seen.category_of_user c user then finish else (err not_found, w)
        ]
      ]

  -- Without the owner's document the last step fails, after everything is written.
  unfoldable pub delete_task :
      Seen → (id user workspace now : ℕ) → TaskWorld env → Result String × TaskWorld env
  unfolding find_authorized_task removed save_or_fail with_activity audit_task clear_lists emit
  delete_task seen id user workspace now w =
      elim (find_authorized_task env.tasks env.docs id workspace w.tasks) [
        | err e ↦ (err e, w)
        | ok t ↦
            let (saved, tasks) = save_or_fail env.tasks env.docs id t (removed now) w.tasks in
            elim saved [
              | err e ↦ (err e, record w { tasks = tasks })
              | ok _ ↦
                  let w1 =
                    with_activity env id user deleted "Task deleted" none
                      (record w { tasks = tasks }) in
                  let w2 =
                    audit_task env user "TASK_DELETED" "TASK" workspace
                      (("taskId", Audit.id id) ∷ ("deletionType", Audit.text "soft_delete") ∷ [])
                      w1 in
                  let w3 = clear_lists env w2 in
                  let message = task_deleted (env.document_text t.owner) id in
                  (
                    if seen.has_user t.owner
                        then ok "Task Deleted Successfully!"
                        else err internal_error,
                    record w3 {
                      emitted = if seen.has_user t.owner then message ∷ w3.emitted else w3.emitted;
                    },
                  )
            ]
      ]

  unfoldable pub assign_task :
      Seen → (id user workspace : ℕ) → List ℕ → TaskWorld env → Result Task × TaskWorld env
  unfolding Repository.find_by_id may_assign Repository.assign_users audit_task
  assign_task seen id user workspace users w =
      elim (Repository.find_by_id env.tasks env.docs id workspace w.tasks) [
        | none ↦ (err not_found, w)
        | some t ↦ elim (seen.role_of t.workspace user) [
          | none ↦ (err forbidden, w)
          | some role ↦
              if may_assign role
              then (if every (λ u. is_some (seen.role_of t.workspace u)) users
                  then (let (saved, tasks) =
                        Repository.assign_users env.tasks env.docs id users w.tasks in
                      elim saved [
                        | err e ↦ (err e, record w { tasks = tasks })
                        | ok t' ↦ (
                          ok t',
                          audit_task env user "TASK_ASSIGNED" "TASK" workspace
                              (("taskId", Audit.id id) ∷ ("assigneeIds", Audit.ids users) ∷ [])
                              (record w { tasks = tasks }),
                        )
                      ])
                  else (err forbidden, w))
              else (err forbidden, w)
        ]
      ]

  unfoldable pub create_comment :
      (id : ℕ)
      → (body : String) → (user workspace now : ℕ) → TaskWorld env
      → Result Task × TaskWorld env
  unfolding find_authorized_task Repository.add_comment with_activity audit_task clear_lists
  create_comment id body user workspace now w =
      elim (find_authorized_task env.tasks env.docs id workspace w.tasks) [
        | err e ↦ (err e, w)
        | ok t ↦
            let (saved, tasks) =
              Repository.add_comment env.tasks env.docs id body user now w.tasks in
            elim saved [
              | err e ↦ (err e, record w { tasks = tasks })
              | ok t' ↦ (
                ok t',
                clear_lists env (
                    audit_task env user "COMMENT_CREATED" "COMMENT" workspace
                      (("taskId", Audit.id id) ∷ [])
                      (with_activity env id user comment_added "Comment added" none
                        (record w { tasks = tasks }))),
              )
            ]
      ]

  unfoldable pub upload_attachment :
      (id : ℕ)
      → File
      → (user workspace fresh : ℕ) → TaskWorld env
      → Result (List Attachment) × TaskWorld env
  unfolding find_authorized_task Repository.upload_attachment with_activity audit_task clear_lists
  upload_attachment id file user workspace fresh w =
      elim (find_authorized_task env.tasks env.docs id workspace w.tasks) [
        | err e ↦ (err e, w)
        | ok t ↦
            let (saved, tasks) =
              Repository.upload_attachment env.tasks env.docs id file fresh w.tasks in
            elim saved [
              | err e ↦ (err e, record w { tasks = tasks })
              | ok t' ↦ (
                ok t'.attachments,
                clear_lists env (
                    audit_task env user "ATTACHMENT_ADDED" "ATTACHMENT" workspace
                      (("attachmentId", Audit.id fresh) ∷ ("taskId", Audit.id id) ∷ [])
                      (with_activity env id user attachment_added "Attachment added" none
                        (record w { tasks = tasks }))),
              )
            ]
      ]

  -- The file goes before the document.
  unfoldable pub delete_attachment :
      (id attachment_id user workspace : ℕ) → TaskWorld env → Result String × TaskWorld env
  unfolding find_authorized_task find_attachment Repository.delete_attachment with_activity
      audit_task clear_lists
  delete_attachment id attachment_id user workspace w =
      elim (find_authorized_task env.tasks env.docs id workspace w.tasks) [
        | err e ↦ (err e, w)
        | ok t ↦ elim (find_attachment attachment_id t.attachments) [
          | none ↦ (err not_found, w)
          | some a ↦
              let w1 = record w { deleted_files = a.url ∷ w.deleted_files } in
              let (saved, tasks) =
                Repository.delete_attachment env.tasks env.docs id attachment_id w1.tasks in
              elim saved [
                | err e ↦ (err e, record w1 { tasks = tasks })
                | ok t' ↦ (
                  ok "Attachment deleted successfully.",
                  clear_lists env (
                      audit_task env user "ATTACHMENT_DELETED" "ATTACHMENT" workspace
                        (("attachmentId", Audit.id attachment_id) ∷ ("taskId", Audit.id id) ∷ [])
                        (with_activity env id user attachment_deleted "Attachment deleted" none
                          (record w1 { tasks = tasks }))),
                )
              ]
        ]
      ]

  unfoldable pub get_tasks : Seen → Key → TaskWorld env → Result Page × TaskWorld env
  unfolding find_all
  get_tasks seen k w = elim (seen.role_of k.workspace k.user) [
    | none ↦ (err forbidden, w)
    | some _ ↦
        let (page, lists) =
          find_all env.tasks env.pipe env.cache (seen.advanced_filtering k.workspace) k w.tasks
            w.lists in
        (page, record w { lists = lists })
  ]
