-- ===== src/Resource.antt =====
-- bosun-core/src/resource.rs: the kind and the identifier of a resource, and the registered resource.
mod Identity
mod Examples
use bonsun.Base.{ℕ, Bool, true, ◌&&◌, ◌||◌, List, [], ◌∷◌, ◌++◌, Text, leb, ◌==◌, if◌then◌else◌}

pub data ResourceKindError : Type 0 where
  empty : ResourceKindError
  invalid_char : Text → ResourceKindError

pub data KindResult : Type 0 where
  ok : Text → KindResult
  err : ResourceKindError → KindResult

-- `is_ascii_lowercase`, `is_ascii_digit`, or one of `.`, `_` and `-`. A character outside ASCII
-- is bytes of 128 and above, none of which is allowed.
kind_char : ℕ → Bool
kind_char ch =
    (leb b'a' ch && leb ch b'z')
    || ((leb b'0' ch && leb ch b'9') || (ch == b'.' || (ch == b'_' || ch == b'-')))

all_kind_chars : Text → Bool
all_kind_chars [] = true
all_kind_chars (ch ∷ s) = kind_char ch && all_kind_chars s

-- `ResourceKind::try_new`
pub try_new : Text → KindResult
try_new [] = KindResult.err empty
try_new (ch ∷ s) =
    if all_kind_chars (ch ∷ s)
    then KindResult.ok (ch ∷ s)
    else KindResult.err (invalid_char (ch ∷ s))

-- `ResourceId::new`: `<kind>:<identity>`
pub resource_id : Text → Text → Text
resource_id kind identity = kind ++ b':' ∷ identity

-- The payload is JSON that only the primitive of the kind reads, so its type is left open.
pub record Resource (P : Type 0) : Type 0 where
  pub id : Text
  pub kind : Text
  pub spec_version : ℕ
  pub payload : P
  pub reload_on : List Text
  pub restart_on : List Text
  pub depends_on : List Text
