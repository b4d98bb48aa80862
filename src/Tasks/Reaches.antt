-- ===== src/Tasks/Reaches.antt =====
-- Each command of src/task/application/commands leaves the documents as they were, adds one, or saves
-- one with an edit.
use task_manager_api.Prelude.{
  ℕ, ◌≡◌, inl, inr, none, List, String, arith, is_some, every, Option-cases, Bool-cases,
  Result-cases,
}
use task_manager_api.Tasks.{Task, CreateTaskDto, UpdateTaskDto, new_task}
use task_manager_api.Tasks.Repository.{
  File, removed, with_attachment, without_attachment, with_comment, with_assignees, find_attachment,
  find_authorized_task, save, save_or_fail,
}
use task_manager_api.Tasks.Repository
use task_manager_api.Tasks.World.{
  TaskEnv, Seen, TaskWorld, audit_task, with_activity, clear_lists, emit,
}
use task_manager_api.Tasks.Update.{assign_all, prepare, commit, update_task, record_update}
use task_manager_api.Tasks.Commands.{
  Draw, may_assign, create_task, created_world, delete_task, assign_task, create_comment,
  upload_attachment, delete_attachment,
}
use task_manager_api.Tasks.Steps.{
  assigns, removes, attaches, detaches, comments, gives_to, Op, create, update, commits, delete,
  assign, comment, upload, detach, after, IsAllowed, Reaches, same, inserted, saved,
}

module _ (env : TaskEnv) where
  pub tasks-record_update :
      (dto : UpdateTaskDto) (t : Task) (id user ws : ℕ) (w : TaskWorld env)
      → (record_update env dto t id user ws w).tasks ≡ w.tasks
  unfolding record_update with_activity audit_task
  tasks-record_update dto t id user ws w = ground arith

  commit-Reaches :
      (dto : UpdateTaskDto) (id user ws : ℕ) (t : Task) (w : TaskWorld env)
      → Reaches env w.tasks (commit env dto id user ws t w).1.tasks
  unfolding commit save clear_lists emit
  commit-Reaches dto id user ws t w =
      elim (Option-cases (save env.tasks env.docs id t (assign_all dto) w.tasks).0) [
        | inl stale ↦ rw (stale, commit) same
        | inr (t', done) ↦
            rw
              (
                done,
                commit,
                tasks-record_update dto t id user ws (record w {
                  tasks = (save env.tasks env.docs id t (assign_all dto) w.tasks).1;
                }),
              )
              (saved id t (assigns dto))
      ]

  delete_task-Reaches :
      (seen : Seen) (id user ws now : ℕ) (w : TaskWorld env)
      → Reaches env w.tasks (delete_task env seen id user ws now w).1.tasks
  unfolding delete_task save_or_fail save clear_lists emit with_activity audit_task
  delete_task-Reaches seen id user ws now w =
      elim (Result-cases (find_authorized_task env.tasks env.docs id ws w.tasks)) [
        | inr (e, absent) ↦ rw (absent, delete_task) same
        | inl (t, found) ↦
            elim (Result-cases (save_or_fail env.tasks env.docs id t (removed now) w.tasks).0) [
              | inr (e, stale) ↦ rw (found, stale, delete_task) (saved id t (removes now))
              | inl (t', done) ↦ rw (found, done, delete_task) (saved id t (removes now))
            ]
      ]

  update_task-Reaches :
      (seen : Seen) (dto : UpdateTaskDto) (id user : ℕ) (role : String) (ws v : ℕ)
      (w : TaskWorld env)
      → Reaches env w.tasks (update_task env seen dto id user role ws v w).1.tasks
  unfolding update_task
  update_task-Reaches seen dto id user role ws v w =
      elim (Result-cases (prepare env seen dto id user role ws v w)) [
        | inr (e, refused) ↦ rw (refused, update_task) same
        | inl (t, ready) ↦ rw (ready, update_task) (commit-Reaches dto id user ws t w)
      ]

  -- A document loaded by its id and saved with an edit, whatever comes of it.
  module _ (id : ℕ) (s : env.tasks.Store) where
    assign_users-Reaches :
        (users : List ℕ) → Reaches env s (Repository.assign_users env.tasks env.docs id users s).1
    unfolding Repository.assign_users save_or_fail save
    assign_users-Reaches users = elim (Option-cases (env.tasks.find_by_id id s)) [
      | inl absent ↦ rw (absent, Repository.assign_users) same
      | inr (t, found) ↦ rw (found, Repository.assign_users) (saved id t (gives_to users))
    ]

    add_comment-Reaches :
        (body : String) (author now : ℕ)
        → Reaches env s (Repository.add_comment env.tasks env.docs id body author now s).1
    unfolding Repository.add_comment save_or_fail save
    add_comment-Reaches body author now = elim (Option-cases (env.tasks.find_by_id id s)) [
      | inl absent ↦ rw (absent, Repository.add_comment) same
      | inr (t, found) ↦ rw (found, Repository.add_comment) (saved id t (comments _))
    ]

    upload_attachment-Reaches :
        (file : File) (fresh : ℕ)
        → Reaches env s (Repository.upload_attachment env.tasks env.docs id file fresh s).1
    unfolding Repository.upload_attachment save_or_fail save
    upload_attachment-Reaches file fresh = elim (Option-cases (env.tasks.find_by_id id s)) [
      | inl absent ↦ rw (absent, Repository.upload_attachment) same
      | inr (t, found) ↦ rw (found, Repository.upload_attachment) (saved id t (attaches _))
    ]

    delete_attachment-Reaches :
        (attachment_id : ℕ)
        → Reaches env s (Repository.delete_attachment env.tasks env.docs id attachment_id s).1
    unfolding Repository.delete_attachment save_or_fail save
    delete_attachment-Reaches attachment_id = elim (Option-cases (env.tasks.find_by_id id s)) [
      | inl absent ↦ rw (absent, Repository.delete_attachment) same
      | inr (t, found) ↦ elim (Option-cases (find_attachment attachment_id t.attachments)) [
        | inl missing ↦ rw (found, missing, Repository.delete_attachment) same
        | inr (a, there) ↦
            rw (found, there, Repository.delete_attachment) (saved id t (detaches attachment_id))
      ]
    ]

  create_comment-Reaches :
      (id : ℕ) (body : String) (user ws now : ℕ) (w : TaskWorld env)
      → Reaches env w.tasks (create_comment env id body user ws now w).1.tasks
  unfolding create_comment clear_lists with_activity audit_task
  create_comment-Reaches id body user ws now w =
      elim (Result-cases (find_authorized_task env.tasks env.docs id ws w.tasks)) [
        | inr (e, absent) ↦ rw (absent, create_comment) same
        | inl (t, found) ↦
            elim (Result-cases
              (Repository.add_comment env.tasks env.docs id body user now w.tasks).0) [
                | inr (e, stale) ↦
                    rw (found, stale, create_comment) (add_comment-Reaches id w.tasks body user now)
                | inl (t', done) ↦
                    rw (found, done, create_comment) (add_comment-Reaches id w.tasks body user now)
              ]
      ]

  upload-Reaches :
      (id : ℕ) (file : File) (user ws fresh : ℕ) (w : TaskWorld env)
      → Reaches env w.tasks (upload_attachment env id file user ws fresh w).1.tasks
  unfolding upload_attachment clear_lists with_activity audit_task
  upload-Reaches id file user ws fresh w =
      elim (Result-cases (find_authorized_task env.tasks env.docs id ws w.tasks)) [
        | inr (e, absent) ↦ rw (absent, upload_attachment) same
        | inl (t, found) ↦
            elim (Result-cases
              (Repository.upload_attachment env.tasks env.docs id file fresh w.tasks).0) [
                | inr (e, stale) ↦
                    rw (found, stale, upload_attachment)
                      (upload_attachment-Reaches id w.tasks file fresh)
                | inl (t', done) ↦
                    rw (found, done, upload_attachment)
                      (upload_attachment-Reaches id w.tasks file fresh)
              ]
      ]

  detach-Reaches :
      (id attachment_id user ws : ℕ) (w : TaskWorld env)
      → Reaches env w.tasks (delete_attachment env id attachment_id user ws w).1.tasks
  unfolding delete_attachment clear_lists with_activity audit_task
  detach-Reaches id attachment_id user ws w =
      elim (Result-cases (find_authorized_task env.tasks env.docs id ws w.tasks)) [
        | inr (e, absent) ↦ rw (absent, delete_attachment) same
        | inl (t, found) ↦ elim (Option-cases (find_attachment attachment_id t.attachments)) [
          | inl missing ↦ rw (found, missing, delete_attachment) same
          | inr (a, there) ↦
              elim (Result-cases
                (Repository.delete_attachment env.tasks env.docs id attachment_id w.tasks).0) [
                  | inr (e, stale) ↦
                      rw (found, there, stale, delete_attachment)
                        (delete_attachment-Reaches id w.tasks attachment_id)
                  | inl (t', done) ↦
                      rw (found, there, done, delete_attachment)
                        (delete_attachment-Reaches id w.tasks attachment_id)
                ]
        ]
      ]

  assign_task-Reaches :
      (seen : Seen) (id user ws : ℕ) (users : List ℕ) (w : TaskWorld env)
      → Reaches env w.tasks (assign_task env seen id user ws users w).1.tasks
  unfolding assign_task audit_task
  assign_task-Reaches seen id user ws users w =
      elim (Option-cases (Repository.find_by_id env.tasks env.docs id ws w.tasks)) [
        | inl absent ↦ rw (absent, assign_task) same
        | inr (t, found) ↦ elim (Option-cases (seen.role_of t.workspace user)) [
          | inl stranger ↦ rw (found, stranger, assign_task) same
          | inr (role, has_role) ↦ elim (Bool-cases (may_assign role)) [
            | inr lower ↦ rw (found, has_role, lower, assign_task) same
            | inl may ↦
                elim (Bool-cases (every (λ u. is_some (seen.role_of t.workspace u)) users)) [
                  | inr strangers ↦ rw (found, has_role, may, strangers, assign_task) same
                  | inl members ↦
                      elim (Result-cases
                        (Repository.assign_users env.tasks env.docs id users w.tasks).0) [
                          | inr (e, stale) ↦
                              rw (found, has_role, may, members, stale, assign_task)
                                (assign_users-Reaches id w.tasks users)
                          | inl (t', done) ↦
                              rw (found, has_role, may, members, done, assign_task)
                                (assign_users-Reaches id w.tasks users)
                        ]
                ]
          ]
        ]
      ]

  create_task-Reaches :
      (seen : Seen) (dto : CreateTaskDto) (user ws : ℕ) (d : Draw) (w : TaskWorld env)
      → env.tasks.find_by_id d.fresh w.tasks ≡ none
      → Reaches env w.tasks (create_task env seen dto user ws d w).1.tasks
  unfolding create_task created_world Repository.create clear_lists emit with_activity audit_task
  create_task-Reaches seen dto user ws d w free = elim (Option-cases (seen.role_of ws user)) [
    | inl stranger ↦ rw (stranger, create_task) same
    | inr (role, has_role) ↦ elim (Option-cases dto.category) [
      | inl plain ↦ rw (has_role, plain, create_task) (inserted d.fresh (new_task dto user ws) free)
      | inr (c, given) ↦ elim (Bool-cases (seen.category_of_user c user)) [
        | inl known ↦
            rw (has_role, given, known, create_task) (inserted d.fresh (new_task dto user ws) free)
        | inr unknown ↦ rw (has_role, given, unknown, create_task) same
      ]
    ]
  ]

  pub after-Reaches :
      (o : Op) (w : TaskWorld env) → IsAllowed env o w → Reaches env w.tasks (after env o w).tasks
  after-Reaches (create seen dto user ws d) w free = create_task-Reaches seen dto user ws d w free
  after-Reaches (update seen dto id user role ws v) w h =
      update_task-Reaches seen dto id user role ws v w
  after-Reaches (commits dto id user ws t) w h = commit-Reaches dto id user ws t w
  after-Reaches (delete seen id user ws now) w h = delete_task-Reaches seen id user ws now w
  after-Reaches (assign seen id user ws users) w h = assign_task-Reaches seen id user ws users w
  after-Reaches (comment id body user ws now) w h = create_comment-Reaches id body user ws now w
  after-Reaches (upload id file user ws fresh) w h = upload-Reaches id file user ws fresh w
  after-Reaches (detach id attachment_id user ws) w h = detach-Reaches id attachment_id user ws w
