-- ===== src/Fleet/Consent.antt =====
-- No model is dispatched to a beacon without consent: an operator who enables it, an installation
-- that asks for it, or a worker that reports to have had it already
-- (source/services/Ultravisor-FleetManager.cjs). The operations may interleave in any way.
use ultravisor.Base.{
  ℕ, ◌==◌, Bool, true, false, ◌&&◌, ◌||◌, Option, none, some, List, [], ◌∷◌, ◌++◌, ◌≡◌, refl, arith,
  is_some, or_num, ◌∙◌, Bool-cases, inl, inr,
}
use ultravisor.Work.{Text}
use ultravisor.Fleet.Push.{Scan, Reply, success_text, unknown_text, response, no_response, rejected}
use ultravisor.Fleet.Installs.{
  uninstalled, installed, error, uninstalling, no_patch, with_status, Installation, Patch,
  ModelTable, is_row, find_row, update_first, update_all, apply_patch, new_row, upsert_model,
  update_model_status, set_model_enabled, delete_model, is_dispatchable, is_model_enabled_on,
  get_model_installation,
}
use ultravisor.Fleet.Models.{AvailableModel}
use ultravisor.Fleet.Filter.{check_model}
use ultravisor.Fleet.Manager.{
  install_patch, success_patch, discovered_patch, Hub, Reported, start_install, report_progress,
  note_failure, note_success, start_uninstall, end_uninstall, enable_model, disable_model,
  discover_one,
}

-- Some row says that the beacon has the model enabled, whatever its status.
unfoldable pub any_enabled : Text → Text → List Installation → Bool
any_enabled b m [] = false
any_enabled b m (r ∷ rs) = (is_row b m r && r.enabled) || any_enabled b m rs

abbrev pub enables : Option Bool → Bool
enables none = false
enables (some on) = on

-- Whether a write to the row of `c` and `n` can enable the model `m` on `b`.
abbrev pub consents : Text → Text → Text → Text → Bool → Bool
consents b m c n on = c == b && n == m && on

find-any_enabled :
    (b m : Text) (rs : List Installation)
    → any_enabled b m rs ≡ false
    → find_row (is_dispatchable b m) rs ≡ none
unfolding any_enabled find_row
find-any_enabled b m [] h = refl
find-any_enabled b m (r ∷ rs) h = ground (arith, find-any_enabled b m rs)

module _ (b m c n : Text) (p : Patch) (quiet : consents b m c n (enables p.enabled) ≡ false) where
  any_enabled-update :
      (rs : List Installation)
      → any_enabled b m rs ≡ false
      → any_enabled b m (update_first (is_row c n) (apply_patch p) rs) ≡ false
  unfolding any_enabled update_first apply_patch
  any_enabled-update [] h = refl
  any_enabled-update (r ∷ rs) h = ground (arith, any_enabled-update rs)

  any_enabled-append :
      (rs : List Installation)
      → any_enabled b m rs ≡ false
      → any_enabled b m (rs ++ new_row c n p ∷ []) ≡ false
  unfolding any_enabled new_row
  any_enabled-append [] h = ground arith
  any_enabled-append (r ∷ rs) h = ground (arith, any_enabled-append rs)

  pub upsert_model-quiet :
      (t : ModelTable)
      → any_enabled b m t.rows ≡ false
      → any_enabled b m (upsert_model c n p t).rows ≡ false
  unfolding upsert_model
  upsert_model-quiet t h = ground (arith, any_enabled-update t.rows, any_enabled-append t.rows)

any_enabled-delete :
    (b m c n : Text) (rs : List Installation)
    → any_enabled b m rs ≡ false
    → any_enabled b m
        (update_all (is_row c n) (λ r. record r { deleted = true; status = uninstalled }) rs)
      ≡ false
unfolding any_enabled update_all
any_enabled-delete b m c n [] h = refl
any_enabled-delete b m c n (r ∷ rs) h = ground (arith, any_enabled-delete b m c n rs)

pub delete_model-quiet :
    (b m c n : Text) (t : ModelTable)
    → any_enabled b m t.rows ≡ false
    → any_enabled b m (delete_model c n t).rows ≡ false
unfolding delete_model
delete_model-quiet b m c n t h = ground (arith, any_enabled-delete b m c n t.rows)

-- The writes of the operations, each with its beacon and its model.
pub data Operation : Type 0 where
  starts_install : Hub → Text → AvailableModel → Scan → Operation
  progresses : ℕ → Operation
  -- With `EnableAfterInstall`.
  succeeds : ℕ → Bool → Text → ℕ → Operation
  fails : Text → Operation
  starts_uninstall : Operation
  ends_uninstall : Reply → Operation
  is_enabled is_disabled : Operation
  -- Reported by a worker that connects, with its name.
  is_reported : ℕ → Text → Reported → Operation

unfoldable pub perform : Text → Text → Operation → ModelTable → ModelTable
unfolding start_install report_progress note_success note_failure start_uninstall end_uninstall
    enable_model disable_model discover_one
perform c n (starts_install hub name av scan) t = start_install hub c name n av scan t
perform c n (progresses k) t = report_progress c n k t
perform c n (succeeds now on hash bytes) t = note_success now c n on hash bytes t
perform c n (fails e) t = note_failure c n e t
perform c n starts_uninstall t = start_uninstall c n t
perform c n (ends_uninstall r) t = end_uninstall c n r t
perform c n is_enabled t = enable_model c n t
perform c n is_disabled t = disable_model c n t
perform c n (is_reported now name r) t = discover_one now c name (record r { key = n }) t

abbrev pub gives_consent : Operation → Bool
gives_consent (succeeds now on hash bytes) = on
gives_consent is_enabled = true
gives_consent (is_reported now name r) = true
gives_consent _ = false

-- A history of writes, each with the beacon and the model that it is about.
abbrev pub History : Type 0
History = List (Text × Text × Operation)

unfoldable pub perform_all : History → ModelTable → ModelTable
unfolding perform
perform_all [] t = t
perform_all ((c, n, op) ∷ ops) t = perform_all ops (perform c n op t)

unfoldable pub has_consent : Text → Text → History → Bool
has_consent b m [] = false
has_consent b m ((c, n, op) ∷ ops) = consents b m c n (gives_consent op) || has_consent b m ops

failure-quiet :
    (b m c n e : Text) (t : ModelTable)
    → consents b m c n false ≡ false
    → any_enabled b m t.rows ≡ false
    → any_enabled b m (note_failure c n e t).rows ≡ false
unfolding note_failure update_model_status
failure-quiet b m c n e t q h =
    upsert_model-quiet b m c n (with_status error (record no_patch { last_error = some e })) q t h

perform-quiet :
    (b m c n : Text) (op : Operation) (t : ModelTable)
    → consents b m c n (gives_consent op) ≡ false
    → any_enabled b m t.rows ≡ false
    → any_enabled b m (perform c n op t).rows ≡ false
unfolding perform start_install report_progress note_success start_uninstall enable_model
    disable_model set_model_enabled update_model_status discover_one end_uninstall
perform-quiet b m c n (starts_install hub name av scan) t q h =
    upsert_model-quiet b m c n (install_patch hub name av scan) q t h
perform-quiet b m c n (progresses k) t q h =
    upsert_model-quiet b m c n (record no_patch { progress_bytes = some k }) q t h
perform-quiet b m c n (succeeds now true hash bytes) t q h =
    upsert_model-quiet b m c n (with_status installed (success_patch now true hash bytes)) q t h
perform-quiet b m c n (succeeds now false hash bytes) t q h =
    upsert_model-quiet b m c n (with_status installed (success_patch now false hash bytes)) q t h
perform-quiet b m c n (fails e) t q h = failure-quiet b m c n e t q h
perform-quiet b m c n starts_uninstall t q h =
    upsert_model-quiet b m c n (with_status uninstalling no_patch) q t h
perform-quiet b m c n (ends_uninstall (response r)) t q h =
    elim (Bool-cases (r.exit_code == 0 || r.status == success_text)) [
      | inl e ↦ rw e (delete_model-quiet b m c n t h)
      | inr e ↦ rw e (failure-quiet b m c n (or_num r.output_error unknown_text) t q h)
    ]
perform-quiet b m c n (ends_uninstall no_response) t q h = delete_model-quiet b m c n t h
perform-quiet b m c n (ends_uninstall (rejected e)) t q h = failure-quiet b m c n e t q h
perform-quiet b m c n is_enabled t q h =
    upsert_model-quiet b m c n (record no_patch { enabled = some true }) q t h
perform-quiet b m c n is_disabled t q h =
    upsert_model-quiet b m c n (record no_patch { enabled = some false }) q t h
perform-quiet b m c n (is_reported now name r) t q h =
    elim (Bool-cases (n == 0 || is_some (get_model_installation c n t))) [
      | inl e ↦ rw e h
      | inr e ↦
          rw e (upsert_model-quiet b m c n (discovered_patch now name (record r { key = n })) q t h)
    ]

perform_all-quiet :
    (b m : Text) (ops : History) (t : ModelTable)
    → has_consent b m ops ≡ false
    → any_enabled b m t.rows ≡ false
    → any_enabled b m (perform_all ops t).rows ≡ false
unfolding perform_all has_consent
perform_all-quiet b m [] t q h = h
perform_all-quiet b m ((c, n, op) ∷ ops) t q h =
    perform_all-quiet b m ops (perform c n op t) (ground arith)
      (perform-quiet b m c n op t (ground arith) h)

ready-upsert_model :
    (c n : Text) (p : Patch) (t : ModelTable) → (upsert_model c n p t).ready ≡ t.ready
unfolding upsert_model
ready-upsert_model c n p t = ground arith

ready-delete_model : (c n : Text) (t : ModelTable) → (delete_model c n t).ready ≡ t.ready
unfolding delete_model
ready-delete_model c n t = ground arith

ready-perform : (c n : Text) (op : Operation) (t : ModelTable) → (perform c n op t).ready ≡ t.ready
unfolding perform start_install report_progress note_success start_uninstall enable_model
    disable_model set_model_enabled update_model_status discover_one end_uninstall note_failure
ready-perform c n (ends_uninstall (response r)) t =
    elim (Bool-cases (r.exit_code == 0 || r.status == success_text)) [
      | inl e ↦ rw e (ready-delete_model c n t)
      | inr e ↦ rw e (ready-upsert_model c n _ t)
    ]
ready-perform c n (ends_uninstall no_response) t = ready-delete_model c n t
ready-perform c n (is_reported now name r) t =
    elim (Bool-cases (n == 0 || is_some (get_model_installation c n t))) [
      | inl e ↦ rw e refl
      | inr e ↦ rw e (ready-upsert_model c n (discovered_patch now name (record r { key = n })) t)
    ]
ready-perform c n op t = simp ready-upsert_model

ready-perform_all : (ops : History) (t : ModelTable) → (perform_all ops t).ready ≡ t.ready
unfolding perform_all
ready-perform_all [] t = refl
ready-perform_all ((c, n, op) ∷ ops) t =
    ready-perform_all ops (perform c n op t) ∙ ready-perform c n op t

-- As long as no row has the model enabled on the beacon and nothing gives consent for the two, the
-- filter denies the beacon every item that needs the model, whatever writes of the operations on
-- this or other models come in whatever order, where the store is open.
pub check_model-perform_all :
    (b m : Text) (ops : History) (t : ModelTable)
    → t.ready ≡ true
    → any_enabled b m t.rows ≡ false
    → has_consent b m ops ≡ false
    → (check_model b m (perform_all ops t)).allowed ≡ false
unfolding check_model is_model_enabled_on
check_model-perform_all b m ops t ready h q =
    rw (ready-perform_all ops t ∙ ready)
      (rw (find-any_enabled b m (perform_all ops t).rows (perform_all-quiet b m ops t q h)) refl)
