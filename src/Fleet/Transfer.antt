-- ===== src/Fleet/Transfer.antt =====
-- What a push sends, against a plain reference: the calls of a plan, one after the other, until a
-- reply is not a success (source/services/Ultravisor-DirectoryDistributor.cjs).
use ultravisor.Base.{
  ℕ, suc, ◌+◌, Bool, true, false, Option, none, some, List, [], ◌∷◌, ◌++◌, ◌≡◌, refl, ◌∙◌, arith,
  length, map, Option-cases, sym, inl, inr, ◌≢◌,
}
use mathlib.Core.List.{append_assoc}
use ultravisor.Work.{Text}
use ultravisor.Fleet.Push.{
  FilePath, Chunk, Scan, PushConfig, Call, send, finalize, Reply, response, no_response, rejected,
  is_ok, PushEnd, pushed, chunk_failed, finalize_failed, Progress, no_progress, Dispatch,
  failed_call, note_call, note_chunk, wire_path, push_chunks, push_files, push_finalize, push_all,
  push_scanned, is_unset, push_directory, extract_error, no_response_text,
}

-- The calls that were sent, the bytes of the chunks that were taken, and whether all succeeded.
pub record Sent : Type 0 where
  pub calls : List Call
  pub bytes : ℕ
  pub all_ok : Bool

abbrev pub size : Call → ℕ
size (send action k) = k.bytes
size (finalize action hash) = 0

unfoldable pub send_from : Dispatch → List Call → Sent → Sent
send_from d [] s = s
send_from d (k ∷ ks) s = elim (is_ok (d (length s.calls) k)) [
  | true ↦ send_from d ks (record s { calls = s.calls ++ k ∷ []; bytes = s.bytes + size k })
  | false ↦ record s { calls = s.calls ++ k ∷ []; all_ok = false }
]

unfoldable pub plan_files :
    (FilePath → FilePath → List Chunk) → Text → FilePath → List FilePath → List Call
plan_files chunks action prefix [] = []
plan_files chunks action prefix (rel ∷ rels) =
    map (send action) (chunks rel (wire_path prefix rel)) ++ plan_files chunks action prefix rels

-- Every chunk of every file, then the call that has the hash checked.
unfoldable pub plan : (FilePath → FilePath → List Chunk) → PushConfig → Scan → List Call
unfolding plan_files
plan chunks config scan =
    plan_files chunks config.push_action config.prefix scan.files
    ++ finalize config.finalize_action scan.hash ∷ []

abbrev pub is_pushed : PushEnd → Bool
is_pushed pushed = true
is_pushed _ = false

abbrev pub sent_of : Progress × PushEnd → Sent
sent_of (p, end) = record { calls = p.calls; bytes = p.bytes; all_ok = is_pushed end }

abbrev open_sent : Progress → Sent
open_sent p = record { calls = p.calls; bytes = p.bytes; all_ok = true }

-- Before the first call.
abbrev pub nothing_sent : Sent
nothing_sent = record { calls = []; bytes = 0; all_ok = true }

-- The rest of the plan goes on where no call failed.
abbrev go_on : Dispatch → List Call → Progress × Option PushEnd → Sent
go_on d rest (p, none) = send_from d rest (open_sent p)
go_on d rest (p, some end) = sent_of (p, end)

failed_call-none : (f : Text → PushEnd) (r : Reply) → failed_call f r ≡ none → is_ok r ≡ true
unfolding failed_call
failed_call-none f (response r) h = ground arith
failed_call-none f no_response h = ground arith
failed_call-none f (rejected e) h = ground arith

failed_call-some :
    (f : Text → PushEnd) (r : Reply) (e : PushEnd)
    → ((x : Text) → is_pushed (f x) ≡ false)
    → failed_call f r ≡ some e
    → (is_ok r ≡ false) × (is_pushed e ≡ false)
unfolding failed_call
failed_call-some f (response r) e never h = ground (arith, never (extract_error r))
failed_call-some f no_response e never h = ground (arith, never no_response_text)
failed_call-some f (rejected x) e never h = ground arith

send_from-push_chunks :
    (d : Dispatch) (a : Text) (ks : List Chunk) (rest : List Call) (p : Progress)
    → send_from d (map (send a) ks ++ rest) (open_sent p) ≡ go_on d rest (push_chunks d a ks p)
unfolding send_from push_chunks
send_from-push_chunks d a [] rest p = refl
send_from-push_chunks d a (k ∷ ks) rest p =
    let reply = d (length p.calls) (send a k) in
    elim (Option-cases (failed_call (chunk_failed k) reply)) [
      | inl e ↦
          rw (e, push_chunks)
            (rw (failed_call-none (chunk_failed k) reply e, send_from)
              (send_from-push_chunks d a ks rest (note_chunk k (note_call (send a k) p))))
      | inr (end, e) ↦
          let (bad, open_end) = failed_call-some (chunk_failed k) reply end (λ x. refl) e in
          rw (e, push_chunks) (rw (bad, send_from) (rw open_end refl))
    ]

-- After a file: the next files, or the call that failed.
after_file :
    (d : Dispatch) (more rest : List Call) (next : Progress → Progress × Option PushEnd)
    → ((p : Progress) → send_from d more (open_sent p) ≡ go_on d rest (next p))
    → (r : Progress × Option PushEnd)
    → go_on d more r
      ≡ go_on d rest (elim r.1 [
        | some e ↦ (r.0, some e)
        | none ↦ next (let q : Progress = r.0 in record q { files = suc q.files })
      ])
after_file d more rest next follows (p, none) = follows (record p { files = suc p.files })
after_file d more rest next follows (p, some e) = refl

send_from-push_files :
    (chunks : FilePath → FilePath → List Chunk) (d : Dispatch) (a : Text) (prefix : FilePath)
    (files : List FilePath) (rest : List Call) (p : Progress)
    → send_from d (plan_files chunks a prefix files ++ rest) (open_sent p)
      ≡ go_on d rest (push_files chunks d a prefix files p)
unfolding plan_files push_files
send_from-push_files chunks d a prefix [] rest p = refl
send_from-push_files chunks d a prefix (rel ∷ rels) rest p =
    let ks = chunks rel (wire_path prefix rel) in
    let more = plan_files chunks a prefix rels ++ rest in
    rw (append_assoc (map (send a) ks) (plan_files chunks a prefix rels) rest) (
      send_from-push_chunks d a ks more p
      ∙ after_file d more rest (push_files chunks d a prefix rels)
          (send_from-push_files chunks d a prefix rels rest) (push_chunks d a ks p))

send_from-push_finalize :
    (d : Dispatch) (a hash : Text) (p : Progress)
    → send_from d (finalize a hash ∷ []) (open_sent p) ≡ sent_of (push_finalize d a hash p)
unfolding send_from push_finalize
send_from-push_finalize d a hash p =
    let reply = d (length p.calls) (finalize a hash) in
    elim (Option-cases (failed_call finalize_failed reply)) [
      | inl e ↦
          rw (e, push_finalize)
            (rw (failed_call-none finalize_failed reply e, send_from) (ground arith))
      | inr (end, e) ↦
          let (bad, open_end) = failed_call-some finalize_failed reply end (λ x. refl) e in
          rw (e, push_finalize) (rw (bad, send_from) (rw open_end refl))
    ]

send_from-push_all :
    (chunks : FilePath → FilePath → List Chunk) (d : Dispatch) (config : PushConfig) (hash : Text)
    (files : List FilePath)
    → sent_of (push_all chunks d config hash files)
      ≡ go_on d
          (finalize config.finalize_action hash ∷ [])
          (push_files chunks d config.push_action config.prefix files no_progress)
unfolding push_all
send_from-push_all chunks d config hash files =
    sent_at_end (push_files chunks d config.push_action config.prefix files no_progress)
  where
    sent_at_end :
        (r : Progress × Option PushEnd)
        → sent_of (elim r.1 [
          | some e ↦ (r.0, e)
          | none ↦ push_finalize d config.finalize_action hash r.0
        ])
          ≡ go_on d (finalize config.finalize_action hash ∷ []) r
    sent_at_end (p, none) = sym (send_from-push_finalize d config.finalize_action hash p)
    sent_at_end (p, some e) = refl

push_scanned_lem :
    (chunks : FilePath → FilePath → List Chunk) (d : Dispatch) (config : PushConfig) (hash : Text)
    (files : List FilePath)
    → files ≢ []
    → sent_of (push_scanned chunks d config hash files)
      ≡ send_from d
          (plan_files chunks config.push_action config.prefix files
            ++ finalize config.finalize_action hash ∷ [])
          nothing_sent
unfolding push_scanned
push_scanned_lem chunks d config hash [] full = absurd (full refl)
push_scanned_lem chunks d config hash (rel ∷ rels) full =
    send_from-push_all chunks d config hash (rel ∷ rels)
    ∙ sym (
        send_from-push_files chunks d config.push_action config.prefix (rel ∷ rels)
          (finalize config.finalize_action hash ∷ []) no_progress)

-- A push that is configured, of a directory with files, sends the calls of its plan in order up to
-- the first that is not a success, counts the bytes of the chunks that were taken, and ends as
-- pushed exactly if every call, the final one with the hash included, succeeded.
pub push_directory_lem :
    (chunks : FilePath → FilePath → List Chunk) (d : Dispatch) (config : PushConfig) (scan : Scan)
    → is_unset config ≡ false
    → scan.files ≢ []
    → sent_of (push_directory chunks d config scan)
      ≡ send_from d (plan chunks config scan) nothing_sent
unfolding push_directory plan
push_directory_lem chunks d config scan set full =
    rw set (push_scanned_lem chunks d config scan.hash scan.files full)
