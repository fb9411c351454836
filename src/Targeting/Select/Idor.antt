-- ===== src/Targeting/Select/Idor.antt =====
-- internal/semantic/targeting/idor.go
pub mod Case
use zero_trust_sh.Prelude.{
  List, [], ◌∷◌, ◌++◌, Bool, true, false, ◌||◌, if◌then◌else◌, any, not, ◌&&◌,
}
use zero_trust_sh.Prelude.Text.{Bytes, codes, contains, to_lower}
use zero_trust_sh.Surface.{
  Surface, SurfaceKind, auth_boundary, idor_candidate, external_input, dangerous_sink, other_kind,
}
use zero_trust_sh.Targeting.Search.{has}

unfoldable pub idor_signals : List Bytes
idor_signals =
    codes "getById"
    ∷ codes "findById"
    ∷ codes "loadById"
    ∷ codes "fetchById"
    ∷ codes "getBy"
    ∷ codes "findBy"
    ∷ codes "fetchBy"
    ∷ codes "byId"
    ∷ codes "byUsername"
    ∷ codes "byEmail"
    ∷ codes "byUser"
    ∷ codes "resource"
    ∷ codes "profile"
    ∷ codes "account"
    ∷ codes "order"
    ∷ codes "invoice"
    ∷ codes "document"
    ∷ codes "record"
    ∷ codes "item"
    ∷ codes "asset"
    ∷ []

unfoldable pub has_idor_signal : Surface → Bool
unfolding any contains to_lower idor_signals
has_idor_signal s =
    any (λ signal. contains (to_lower s.function_name) signal || contains (to_lower s.file) signal)
      idor_signals

abbrev pub is_auth_boundary : SurfaceKind → Bool
is_auth_boundary auth_boundary = true
is_auth_boundary _ = false

unfoldable pub is_candidate : List Bytes → Bytes × Surface → Bool
unfolding has has_idor_signal
is_candidate can_reach_auth (id, s) =
    not (is_auth_boundary s.kind) && (not (has can_reach_auth id) && has_idor_signal s)

unfoldable pub promote : Surface → Surface
promote s = record s { kind = idor_candidate; is_idor_candidate = true }

unfoldable pub identify_idor : List (Bytes × Surface) → List Bytes → List Surface
unfolding is_candidate promote
identify_idor [] can_reach_auth = []
identify_idor ((id, s) ∷ surfaces) can_reach_auth =
    let rest = identify_idor surfaces can_reach_auth in
    if is_candidate can_reach_auth (id, s) then promote s ∷ rest else rest
