-- ===== src/Resource/Examples.antt =====
-- Tests and instances for the identifiers of resources.
use bonsun.Base.{◌≡◌, refl, codes}
use bonsun.Resource.{KindResult, try_new, all_kind_chars, kind_char}

try_new-apt : try_new (codes "apt.package") ≡ KindResult.ok (codes "apt.package")
unfolding try_new all_kind_chars kind_char
try_new-apt = refl
