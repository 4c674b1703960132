-- ===== src/Fleet/Push.antt =====
-- The transfer of a directory to a beacon (source/services/Ultravisor-DirectoryDistributor.cjs). The
-- scan of the directory, with its hash, and the chunks of a file come from the package
-- `ultravisor-file-stream` and are arguments, and so is the beacon's reply to each call.
use ultravisor.Base.{
  ℕ, suc, ◌+◌, ◌==◌, Bool, true, false, not, ◌&&◌, ◌||◌, Option, none, some, List, [], ◌∷◌, ◌++◌,
  if◌then◌else◌, length, or_num,
}
use ultravisor.Work.{Text}

abbrev pub FilePath : Type 0
FilePath = List ℕ

abbrev pub slash : ℕ
slash = 47

unfoldable pub trim_start : FilePath → FilePath
trim_start [] = []
trim_start (c ∷ cs) = let rest = trim_start cs in if c == slash then rest else c ∷ cs

-- A slash at the end goes if only slashes follow it.
unfoldable pub trim_end : FilePath → FilePath
trim_end [] = []
trim_end (c ∷ cs) =
    let rest = trim_end cs in
    elim rest [ [] ↦ if c == slash then [] else c ∷ [] | d ∷ ds ↦ c ∷ d ∷ ds ]

unfoldable pub join_forward_slash : FilePath → FilePath → FilePath
unfolding trim_start trim_end
join_forward_slash a b = elim (trim_end (trim_start a)) [
  | [] ↦ trim_start b
  | c ∷ cs ↦ elim (trim_start b) [ [] ↦ c ∷ cs | d ∷ ds ↦ (c ∷ cs) ++ slash ∷ d ∷ ds ]
]

pub record Chunk : Type 0 where
  pub path : FilePath
  pub index : ℕ
  pub total : ℕ
  -- The decoded length of its content.
  pub bytes : ℕ

pub record Scan : Type 0 where
  pub hash : Text
  pub total_bytes : ℕ
  pub files : List FilePath

pub record PushConfig : Type 0 where
  pub source_dir : FilePath
  pub push_action : Text
  pub finalize_action : Text
  pub prefix : FilePath

pub data Call : Type 0 where
  send : Text → Chunk → Call
  finalize : Text → Text → Call

-- `Success === false`, `Outputs.Status`, `Outputs.ExitCode`, `Outputs.Error` and `Error`.
pub record Response : Type 0 where
  pub refused : Bool
  pub status : Text
  pub exit_code : ℕ
  pub output_error : Text
  pub error : Text

-- A dispatch ends with a response, with none, or rejects with a message.
pub data Reply : Type 0 where
  response : Response → Reply
  no_response : Reply
  rejected : Text → Reply

abbrev pub success_text : Text
success_text = 10

abbrev pub no_response_text : Text
no_response_text = 11

abbrev pub unknown_text : Text
unknown_text = 12

unfoldable pub is_ok_response : Response → Bool
is_ok_response r = not r.refused && (r.status == 0 || r.status == success_text) && r.exit_code == 0

unfoldable pub extract_error : Response → Text
extract_error r = or_num r.output_error (or_num r.status (or_num r.error unknown_text))

abbrev pub is_ok : Reply → Bool
is_ok (response r) = is_ok_response r
is_ok no_response = false
is_ok (rejected e) = false

-- How a push ends. A failed call has the error that was read from its reply.
pub data PushEnd : Type 0 where
  pushed : PushEnd
  not_configured empty_directory : PushEnd
  chunk_failed : Chunk → Text → PushEnd
  finalize_failed : Text → PushEnd
  threw : Text → PushEnd

-- What was sent so far, the counters, and the byte counts that were reported as progress.
pub record Progress : Type 0 where
  pub calls : List Call
  pub bytes : ℕ
  pub files : ℕ
  pub reports : List ℕ

abbrev pub no_progress : Progress
no_progress = record { calls = []; bytes = 0; files = 0; reports = [] }

-- The beacon's reply to a call, which may depend on how many calls came before it.
abbrev pub Dispatch : Type 0
Dispatch = ℕ → Call → Reply

unfoldable pub failed_call : (Text → PushEnd) → Reply → Option PushEnd
unfolding is_ok_response extract_error
failed_call failed (response r) = if is_ok_response r then none else some (failed (extract_error r))
failed_call failed no_response = some (failed no_response_text)
failed_call failed (rejected e) = some (threw e)

abbrev pub note_call : Call → Progress → Progress
note_call k p = record p { calls = p.calls ++ k ∷ [] }

abbrev pub note_chunk : Chunk → Progress → Progress
note_chunk k p = record p {
  bytes = p.bytes + k.bytes;
  reports = p.reports ++ (p.bytes + k.bytes) ∷ [];
}

unfoldable pub push_chunks : Dispatch → Text → List Chunk → Progress → Progress × Option PushEnd
unfolding failed_call
push_chunks dispatch action [] p = (p, none)
push_chunks dispatch action (k ∷ ks) p =
    let sent = note_call (send action k) p in
    elim (failed_call (chunk_failed k) (dispatch (length p.calls) (send action k))) [
      | some end ↦ (sent, some end)
      | none ↦ push_chunks dispatch action ks (note_chunk k sent)
    ]

-- The path under which the beacon stores a file.
abbrev pub wire_path : FilePath → FilePath → FilePath
wire_path [] rel = rel
wire_path (c ∷ cs) rel = join_forward_slash (c ∷ cs) rel

unfoldable pub push_files :
    (FilePath → FilePath → List Chunk)
    → Dispatch
    → Text
    → FilePath
    → List FilePath
    → Progress
    → Progress × Option PushEnd
unfolding push_chunks
push_files chunks dispatch action prefix [] p = (p, none)
push_files chunks dispatch action prefix (rel ∷ rels) p =
    let (q, end) = push_chunks dispatch action (chunks rel (wire_path prefix rel)) p in
    elim end [
      | some e ↦ (q, some e)
      | none ↦ push_files chunks dispatch action prefix rels (record q { files = suc q.files })
    ]

unfoldable pub push_finalize : Dispatch → Text → Text → Progress → Progress × PushEnd
unfolding failed_call
push_finalize dispatch action hash p = (
  note_call (finalize action hash) p,
  elim (failed_call finalize_failed (dispatch (length p.calls) (finalize action hash))) [
    | some end ↦ end
    | none ↦ pushed
  ],
)

unfoldable pub push_all :
    (FilePath → FilePath → List Chunk)
    → Dispatch
    → PushConfig
    → Text
    → List FilePath
    → Progress × PushEnd
unfolding push_files push_finalize
push_all chunks dispatch config hash files =
    let (p, end) = push_files chunks dispatch config.push_action config.prefix files no_progress in
    elim end [ some e ↦ (p, e) | none ↦ push_finalize dispatch config.finalize_action hash p ]

unfoldable pub push_scanned :
    (FilePath → FilePath → List Chunk)
    → Dispatch
    → PushConfig
    → Text
    → List FilePath
    → Progress × PushEnd
unfolding push_all
push_scanned chunks dispatch config hash [] = (no_progress, empty_directory)
push_scanned chunks dispatch config hash (rel ∷ rels) =
    push_all chunks dispatch config hash (rel ∷ rels)

abbrev pub is_empty {ℓ} : {A : Type ℓ} → List A → Bool
is_empty [] = true
is_empty (x ∷ xs) = false

abbrev pub is_unset : PushConfig → Bool
is_unset config =
    is_empty config.source_dir || config.push_action == 0 || config.finalize_action == 0

unfoldable pub push_directory :
    (FilePath → FilePath → List Chunk) → Dispatch → PushConfig → Scan → Progress × PushEnd
unfolding push_scanned
push_directory chunks dispatch config scan =
    if is_unset config
    then (no_progress, not_configured)
    else push_scanned chunks dispatch config scan.hash scan.files
