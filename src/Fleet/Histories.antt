-- ===== src/Fleet/Histories.antt =====
-- A whole installation as a history of writes, and what it leaves the filter to say
-- (source/services/Ultravisor-FleetManager.cjs).
use ultravisor.Base.{
  ℕ, Bool, true, false, List, [], ◌∷◌, ◌≡◌, refl, ◌∙◌, sym, arith, Option-cases, inl, inr,
}
use ultravisor.Base.Dict.{lookup}
use ultravisor.Work.{Text}
use ultravisor.Fleet.Push.{
  Scan, PushEnd, pushed, not_configured, empty_directory, chunk_failed, finalize_failed, threw,
  Progress, push_directory,
}
use ultravisor.Fleet.Installs.{ModelTable}
use ultravisor.Fleet.Models.{AvailableModel}
use ultravisor.Fleet.Filter.{Fleet, check_model, scan_fleet}
use ultravisor.Fleet.Manager.{
  Hub, error_text, start_install, report_all, end_install, install_available, install_model,
}
use ultravisor.Fleet.Consent.{
  Operation, starts_install, progresses, succeeds, fails, History, perform, perform_all,
  has_consent, any_enabled, check_model-perform_all,
}

-- The last write of an installation.
unfoldable pub last_write : Hub → Bool → Scan → Progress × PushEnd → Operation
last_write hub enable scan (p, pushed) = succeeds hub.now enable scan.hash p.bytes
last_write hub enable scan (p, end) = fails (error_text hub end)

unfoldable pub progress_writes : Text → Text → List ℕ → History → History
progress_writes b m [] rest = rest
progress_writes b m (n ∷ ns) rest = (b, m, progresses n) ∷ progress_writes b m ns rest

perform_all-progress_writes :
    (b m : Text) (ns : List ℕ) (rest : History) (t : ModelTable)
    → perform_all (progress_writes b m ns rest) t ≡ perform_all rest (report_all b m ns t)
unfolding perform_all progress_writes report_all perform
perform_all-progress_writes b m [] rest t = refl
perform_all-progress_writes b m (n ∷ ns) rest t = perform_all-progress_writes b m ns rest _

perform-last_write :
    (hub : Hub) (b m : Text) (enable : Bool) (scan : Scan) (p : Progress) (end : PushEnd)
    (t : ModelTable)
    → perform b m (last_write hub enable scan (p, end)) t
      ≡ end_install hub b m enable scan (p, end) t
unfolding last_write end_install perform
perform-last_write hub b m enable scan p pushed t = refl
perform-last_write hub b m enable scan p not_configured t = refl
perform-last_write hub b m enable scan p empty_directory t = refl
perform-last_write hub b m enable scan p (chunk_failed k e) t = refl
perform-last_write hub b m enable scan p (finalize_failed e) t = refl
perform-last_write hub b m enable scan p (threw e) t = refl

-- The push of a model.
abbrev push_model : Hub → Text → Text → AvailableModel → Progress × PushEnd
push_model hub b m av =
    push_directory (hub.chunks av.source_dir) (hub.dispatch b)
      (record {
        source_dir = av.source_dir;
        push_action = av.push_action;
        finalize_action = av.finalize_action;
        prefix = hub.path_of m;
      })
      (hub.scan av.source_dir)

unfoldable pub install_writes : Hub → Text → Text → Text → Bool → AvailableModel → History
unfolding last_write progress_writes
install_writes hub b name m enable av =
    let outcome = push_model hub b m av in
    (b, m, starts_install hub name av (hub.scan av.source_dir))
    ∷ progress_writes b m outcome.0.reports
        ((b, m, last_write hub enable (hub.scan av.source_dir) outcome) ∷ [])

-- An installation writes its history.
pub install_available-perform_all :
    (hub : Hub) (b name m : Text) (enable : Bool) (av : AvailableModel) (t : ModelTable)
    → (install_available hub b name m enable av t).0
      ≡ perform_all (install_writes hub b name m enable av) t
unfolding install_available install_writes perform_all perform
install_available-perform_all hub b name m enable av t =
    let (p, end) = push_model hub b m av in
    let scan : Scan = hub.scan av.source_dir in
    let started = start_install hub b name m av scan t in
    sym (
      perform_all-progress_writes b m p.reports ((b, m, last_write hub enable scan (p, end)) ∷ [])
        started
      ∙ perform-last_write hub b m enable scan p end (report_all b m p.reports started))

has_consent-progress_writes :
    (b m : Text) (ns : List ℕ) (rest : History)
    → has_consent b m rest ≡ false
    → has_consent b m (progress_writes b m ns rest) ≡ false
unfolding has_consent progress_writes
has_consent-progress_writes b m [] rest h = h
has_consent-progress_writes b m (n ∷ ns) rest h =
    ground (arith, has_consent-progress_writes b m ns rest)

has_consent-last_write :
    (hub : Hub) (b m : Text) (scan : Scan) (p : Progress) (end : PushEnd)
    → has_consent b m ((b, m, last_write hub false scan (p, end)) ∷ []) ≡ false
unfolding has_consent last_write
has_consent-last_write hub b m scan p pushed = ground arith
has_consent-last_write hub b m scan p not_configured = ground arith
has_consent-last_write hub b m scan p empty_directory = ground arith
has_consent-last_write hub b m scan p (chunk_failed k e) = ground arith
has_consent-last_write hub b m scan p (finalize_failed e) = ground arith
has_consent-last_write hub b m scan p (threw e) = ground arith

has_consent-install_writes :
    (hub : Hub) (b name m : Text) (av : AvailableModel)
    → has_consent b m (install_writes hub b name m false av) ≡ false
unfolding install_writes has_consent
has_consent-install_writes hub b name m av =
    let (p, end) = push_model hub b m av in
    let scan : Scan = hub.scan av.source_dir in
    ground (
      arith,
      has_consent-progress_writes b m p.reports ((b, m, last_write hub false scan (p, end)) ∷ [])
          (has_consent-last_write hub b m scan p end),
    )

-- To install a model on a beacon is not to enable it: where no row has it enabled there, the filter
-- still denies the beacon every item that needs the model after an installation that does not ask
-- for more, however the installation ends, where the store is open.
pub check_model-install_model :
    (hub : Hub) (b m : Text) (f : Fleet)
    → f.models.ready ≡ true
    → any_enabled b m f.models.rows ≡ false
    → (check_model b m (install_model hub b m false f).0.models).allowed ≡ false
unfolding install_model perform_all has_consent
check_model-install_model hub b m f ready no_row = elim (Option-cases (lookup b hub.beacons)) [
  | inl e ↦ rw (e, install_model) (check_model-perform_all b m [] f.models ready no_row refl)
  | inr (bcn, e) ↦
      rw (e, install_model)
        (elim (Option-cases (lookup m (scan_fleet hub.disk hub.now f).cache.models)) [
          | inl g ↦
              rw (g, install_model) (check_model-perform_all b m [] f.models ready no_row refl)
          | inr (av, g) ↦
              rw (g, install_model)
                (rw (install_available-perform_all hub b bcn.name m false av f.models) (
                  check_model-perform_all b m (install_writes hub b bcn.name m false av) f.models
                    ready no_row (has_consent-install_writes hub b bcn.name m av)))
        ])
]
