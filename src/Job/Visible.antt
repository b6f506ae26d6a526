-- ===== src/Job/Visible.antt =====
-- Who finds a job: its user after `create`, and nobody once its session is archived.
use fineract_ai_reports.Prelude.{
  Bool-cases, Option-cases, ◌==◌, ==_refl, string_eq, nat_eq, find, any, ◌∈◌, any-mem, find-some,
  mem-append_right, int_eq, ℕ, ◌+◌, ◌≤◌, ◌≡◌, refl, sym, ap, ◌∙◌, subst, ◌≢◌, inl, inr, Bool, true,
  false, ◌&&◌, Option, none, some, List, [], ◌∷◌, ◌++◌, arith,
}
use fineract_ai_reports.Json.{}
use fineract_ai_reports.Management.{}
use fineract_ai_reports.Workflow.State.{update_where, count_where}
use fineract_ai_reports.Job.{ChatSessionRow, ChatJobRow, ChatDb, is_null, is_visible_to, enqueue}
use fineract_ai_reports.Job.Audit.{}
use fineract_ai_reports.Job.Sessions.{
  create_session, is_open_for, get_session_for_user, archive_row, session_archived_event,
  archive_for_user,
}
use fineract_ai_reports.Job.Repository.{
  is_job, in_open_session, get_for_user, CreateInput, CreatedChatJob, queued_job, link_message,
  create_in, session_for, create_for, create,
}
use fineract_ai_reports.Job.Tables.{mem-update_where, count_where-mem}

module _ {A : Type 0} where
  -- The row that is appended and updated is found where no other passes.
  find-appended :
      (p test : A → Bool) (change : A → A) (xs : List A) (a : A)
      → ((x : A) → test x ≡ false → p x ≡ false)
      → any test xs ≡ false
      → test a ≡ true
      → p (change a) ≡ true
      → find p (update_where test change (xs ++ a ∷ [])) ≡ some (change a)
  find-appended p test change [] a others fresh new passes = rw (new, passes) refl
  find-appended p test change (x ∷ xs) a others fresh new passes =
      let old : test x ≡ false = ground arith in
      let rest = find-appended p test change xs a others (ground arith) new passes in
      rw (old, others x old) rest

  any-mem_last : (p : A → Bool) (xs : List A) (a : A) → p a ≡ true → any p (xs ++ a ∷ []) ≡ true
  any-mem_last p xs a h = any-mem p (xs ++ a ∷ []) h (mem-append_right a xs (a ∷ []) (inl refl))

  any-none : (p : A → Bool) (xs : List A) → ((a : A) → a ∈ xs → p a ≡ false) → any p xs ≡ false
  any-none p [] h = refl
  any-none p (x ∷ xs) h = let rest = any-none p xs (λ a m. h a (inr m)) in rw (h x (inl refl)) rest

  -- Two rows that pass are one where at most one does.
  passing-same :
      (p : A → Bool) (xs : List A) {a b : A}
      → count_where p xs ≤ 1
      → a ∈ xs
      → b ∈ xs
      → p a ≡ true
      → p b ≡ true
      → a ≡ b
  passing-same p [] few ma mb pa pb = absurd ma
  passing-same p (x ∷ xs) few (inl ea) (inl eb) pa pb = ea ∙ sym eb
  passing-same p (x ∷ xs) few (inl ea) (inr mb) pa pb =
      let t : p x ≡ true = sym (ap p ea) ∙ pa in
      let few' : 1 + count_where p xs ≤ 1 = rw t at few in
      cc (count_where-mem p xs (omega arith) mb)
  passing-same p (x ∷ xs) few (inr ma) (inl eb) pa pb =
      let t : p x ≡ true = sym (ap p eb) ∙ pb in
      let few' : 1 + count_where p xs ≤ 1 = rw t at few in
      cc (count_where-mem p xs (omega arith) ma)
  passing-same p (x ∷ xs) few (inr ma) (inr mb) pa pb = passing-same p xs (omega arith) ma mb pa pb

abbrev job_visible : ℕ → ℕ → Bool → ChatDb → ChatJobRow → Bool
job_visible job user legacy db row =
    is_job job row && is_visible_to row.user_id user legacy && in_open_session db row

create_in-visible :
    (c : CreateInput) (session : ℕ) (legacy : Bool) (db : ChatDb)
    → any (is_job c.job_id) db.jobs ≡ false
    → in_open_session db (queued_job c session) ≡ true
    → get_for_user c.job_id c.user_id legacy (create_in c session db).1
      ≡ some (link_message c.user_message_id (queued_job c session))
unfolding get_for_user
create_in-visible c session legacy db fresh opened =
    find-appended (job_visible c.job_id c.user_id legacy (create_in c session db).1)
      (is_job c.job_id) (link_message c.user_message_id) db.jobs (queued_job c session)
      (λ x f. rw f refl) fresh (==_refl c.job_id)
      (rw (==_refl c.job_id, ==_refl c.user_id, opened) refl)

-- A job that `create` makes, under an id that no job has, is found by its user, queued, with the
-- message and linked to it, in the session that `create` returns.
pub create-get_for_user :
    (c : CreateInput) (legacy : Bool) (db after : ChatDb) (made : CreatedChatJob)
    → any (is_job c.job_id) db.jobs ≡ false
    → create c db ≡ (some made, after)
    → get_for_user made.job_id c.user_id legacy after
      ≡ some (link_message made.user_message_id (queued_job c made.session_id))
unfolding create
create-get_for_user c legacy db after made fresh h =
    by_session c.session_id (ap (λ p. p.0) h) (ap (λ p. p.1) h)
  where
    found_in :
        (session : ℕ) (d : ChatDb)
        → any (is_job c.job_id) d.jobs ≡ false
        → in_open_session d (queued_job c session) ≡ true
        → some (create_in c session d).0 ≡ some made
        → (create_in c session d).1 ≡ after
        → get_for_user made.job_id c.user_id legacy after
          ≡ some (link_message made.user_message_id (queued_job c made.session_id))
    found_in session d fresh' opened e after_eq =
        let made_eq : (create_in c session d).0 ≡ made = cc in
        subst
          (λ (m : CreatedChatJob).
            get_for_user m.job_id c.user_id legacy after
            ≡ some (link_message m.user_message_id (queued_job c m.session_id)))
          made_eq
          (subst
            (λ d'.
              get_for_user c.job_id c.user_id legacy d'
              ≡ some (link_message c.user_message_id (queued_job c session)))
            after_eq (create_in-visible c session legacy d fresh' opened))

    by_session :
        (session : Option ℕ)
        → (create_for c (session_for c session db)).0 ≡ some made
        → (create_for c (session_for c session db)).1 ≡ after
        → get_for_user made.job_id c.user_id legacy after
          ≡ some (link_message made.user_message_id (queued_job c made.session_id))
    by_session none e e' =
        found_in c.new_session_id (create_session c.now c.new_session_id c.user_id none db).1 fresh
          (any-mem_last
            (λ (s : ChatSessionRow). (s.id == c.new_session_id) && is_null s.archived_at)
            db.sessions (create_session c.now c.new_session_id c.user_id none db).0
            (rw (==_refl c.new_session_id) refl))
          e e'
    by_session (some session) e e' =
        elim (Option-cases (get_session_for_user session c.user_id false db)) [
          | inl nothing ↦
              let none_made : none ≡ some made = rw (nothing, create_for, session_for) at e in cc
          | inr (row, known) ↦
              let (passes, in_sessions) =
                find-some (is_open_for session c.user_id false) db.sessions known in
              let made_eq : some (create_in c session db).0 ≡ some made =
                rw (known, create_for, session_for) at e in
              let after_eq : (create_in c session db).1 ≡ after =
                rw (known, create_for, session_for) at e' in
              found_in session db fresh
                (any-mem (λ (s : ChatSessionRow). (s.id == session) && is_null s.archived_at)
                  db.sessions (ground (arith, passes)) in_sessions)
                made_eq after_eq
        ]

-- Where session ids are unique, no job of a session that a user has archived is found afterwards, by
-- whichever user.
pub archive-get_for_user :
    (now session user : ℕ) (legacy : Bool) (db after : ChatDb) (id : ℕ) (job user' : ℕ)
    (legacy' : Bool) (row : ChatJobRow)
    → count_where (λ (s : ChatSessionRow). s.id == session) db.sessions ≤ 1
    → archive_for_user now session user legacy db ≡ (some id, after)
    → get_for_user job user' legacy' after ≡ some row
    → row.session_id ≢ session
unfolding archive_for_user get_for_user
archive-get_for_user now session user legacy db after id job user' legacy' row few h got same =
    let test = is_open_for session user legacy in
    elim (Option-cases (find test db.sessions)) [
      | inl nothing ↦
          let none_found : none ≡ some id = rw (nothing, archive_for_user) at (ap (λ p. p.0) h) in
          cc
      | inr (found, e) ↦
          let (passes, known) = find-some test db.sessions e in
          let archived : ChatDb =
            enqueue (session_archived_event now found.id user)
              (record db { sessions = update_where test (archive_row now) db.sessions }) in
          let after_eq : archived ≡ after = rw (e, archive_for_user) at (ap (λ p. p.1) h) in
          let closed =
            any-none (λ (s : ChatSessionRow). (s.id == session) && is_null s.archived_at)
              (update_where test (archive_row now) db.sessions)
              (λ b m.
                let (a, in_db, which) = mem-update_where test (archive_row now) db.sessions m in
                elim which [
                  | inl (t, eb) ↦ rw eb (ground arith)
                  | inr (f, eb) ↦ elim (Bool-cases (a.id == session)) [
                    | inr other ↦ rw (eb, other) refl
                    | inl its ↦
                        let one =
                          passing-same (λ (s : ChatSessionRow). s.id == session) db.sessions few
                            in_db known its (ground (arith, passes)) in
                        cc (ap test one)
                  ]
                ]) in
          let (visible, in_jobs) = find-some (job_visible job user' legacy' after) after.jobs got in
          let opened : in_open_session after row ≡ true = ground arith in
          let opened' =
            subst (λ (d : ChatDb). in_open_session d row ≡ true) (sym after_eq) opened in
          let opened'' : any (λ (s : ChatSessionRow). (s.id == session) && is_null s.archived_at)
                archived.sessions
              ≡ true =
            subst
              (λ i.
                any (λ (s : ChatSessionRow). (s.id == i) && is_null s.archived_at) archived.sessions
                ≡ true)
              same opened' in
          cc
    ]
