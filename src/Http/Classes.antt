-- ===== src/Http/Classes.antt =====
-- Which class of error a caller sees for which status.
use zeno_plugin.Prelude.{
  ℕ, ◌≡◌, refl, ◌≤◌, ◌<◌, ◌⊎◌, inl, inr, ◌&&◌, arith, leb, ltb, ◌==◌, if◌then◌else◌, Bool-cases,
}
use zeno_plugin.Prelude.Text.{Text}
use zeno_plugin.Prelude.Result.{Result, ok, err}
use zeno_plugin.Manifest.Value.{Python}
use zeno_plugin.Http.{
  ErrorClass, zeno_api_error, service_unavailable, bad_request, not_found, conflict, forbidden,
  superclass, ZenoApiError, HttpResponse, detail_from_response, class_of, raise_for_status,
}

-- the class that `except` clauses name for a status
abbrev pub family : ℕ → ErrorClass
family status =
    if status == 503
    then service_unavailable
    else if status == 400
    then bad_request
    else if status == 404
    then not_found
    else if status == 403
    then forbidden
    else if status == 409
    then conflict
    else zeno_api_error

-- `issubclass(c, d)`
abbrev pub IsA : ErrorClass → ErrorClass → Type 0
IsA c d = (c ≡ d) ⊎ (superclass c ≡ d)

-- An error of the API carries the status and the detail of its response, and is of the family of
-- its status.
abbrev pub Explains : HttpResponse → Result ZenoApiError (Unit {0}) → Type 0
Explains resp (ok _) = (200 ≤ resp.status_code) × (resp.status_code < 300)
Explains resp (err e) =
    ((resp.status_code < 200) ⊎ (300 ≤ resp.status_code))
    × (e.status_code ≡ resp.status_code)
    × (e.detail ≡ detail_from_response resp)
    × IsA e.class (family resp.status_code)
    × (family resp.status_code ≡ zeno_api_error → e.class ≡ zeno_api_error)

class_of-IsA :
    (status : ℕ) (operation detail : Text) → IsA (class_of status operation detail) (family status)
unfolding class_of superclass
class_of-IsA status operation detail = ground arith

class_of_other :
    (status : ℕ) (operation detail : Text)
    → family status ≡ zeno_api_error
    → class_of status operation detail ≡ zeno_api_error
unfolding class_of
class_of_other status operation detail other = ground (arith, other)

-- `raise_for_status` returns exactly on a status from 200 to 299. Otherwise it raises an error that
-- carries the status and the detail of the response, and whose class is the one for the status, 503,
-- 400, 404, 403 or 409, or a subclass of it, and `ZenoAPIError` itself for any other status.
pub raise_for_status-Explains :
    (py : Python) (resp : HttpResponse) (operation : Text)
    → Explains resp (raise_for_status py resp operation)
unfolding raise_for_status
raise_for_status-Explains py resp operation =
    elim (Bool-cases (leb 200 resp.status_code && ltb resp.status_code 300)) [
      | inl good ↦ rw good (ground arith, ground arith)
      | inr failed ↦
          let outside : (resp.status_code < 200) ⊎ (300 ≤ resp.status_code) = ground arith in
          rw failed (
            outside,
            refl,
            refl,
            class_of-IsA resp.status_code operation (detail_from_response resp),
            class_of_other resp.status_code operation (detail_from_response resp),
          )
    ]
