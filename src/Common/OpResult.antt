-- ===== src/Common/OpResult.antt =====
-- `OpResult` of crates/b3-common/src/errors.rs.
use Prim.Native.String.{String}
use b.Prelude.{ℕ, Bool, true, false, ◌&&◌, ◌||◌, Option, some, leb, ◌==◌, if◌then◌else◌}

pub data OpResult (A : Type 0) : Type 0 where
  ok : A → OpResult A
  permanent_failure : String → Option ℕ → OpResult A
  transient_failure : String → Option ℕ → OpResult A
  network_error : String → OpResult A

unfoldable pub is_ok : {A : Type 0} → OpResult A → Bool
is_ok (OpResult.ok a) = true
is_ok (OpResult.permanent_failure r s) = false
is_ok (OpResult.transient_failure r s) = false
is_ok (OpResult.network_error r) = false

unfoldable pub is_permanent : {A : Type 0} → OpResult A → Bool
is_permanent (OpResult.ok a) = false
is_permanent (OpResult.permanent_failure r s) = true
is_permanent (OpResult.transient_failure r s) = false
is_permanent (OpResult.network_error r) = false

-- `describe` is the standard library's `format!("HTTP {status}")`.
unfoldable pub from_http_status : (ℕ → String) → ℕ → OpResult Unit
from_http_status describe status =
    if leb 200 status && leb status 299
    then OpResult.ok tt
    else if (status == 400)
        || (status == 401)
        || (status == 403)
        || (status == 404)
        || (status == 413)
        || (status == 422)
    then OpResult.permanent_failure (describe status) (some status)
    else OpResult.transient_failure (describe status) (some status)
