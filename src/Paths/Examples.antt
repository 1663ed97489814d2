-- ===== src/Paths/Examples.antt =====
-- A file system with one entry, a link that is made there, and a module of a bundle that is resolved.
use bonsun.Base.{◌≡◌, refl, true, false, [], none, Text, text_eq, codes, any}
use bonsun.Resource.{Resource}
use bonsun.Primitive.{Diff, add, changed_with}
use bonsun.Defers.Files.{IoError, not_found, other}
use bonsun.Paths.Components.{components, segments, of_segments, is_prefix}
use bonsun.Paths.{Metadata, FileSystem, validate_path}
use bonsun.Paths.Resolve.{check_components, check_relative, resolve_within_root}
use bonsun.Paths.Inside.{IsInside, resolve_within_root-IsInside}
use bonsun.Paths.Symlink.{
  present, FileSymlinkSpec, validate_symlink, decide_action_symlink, replace_symlink, converge,
  symlink_apply,
}
use bonsun.Paths.Settled.{
  Entry, missing, file, directory, link_to, IsFileSystem, Settled, symlink_apply-settles,
}
use bonsun.Effects.{Result, ok, err, Ends, ◌>>=◌, match_result, map_err}

abbrev look : Entry → Result IoError Metadata × Entry
look missing = (err not_found, missing)
look file = (ok (record { is_dir = false; is_symlink = false }), file)
look directory = (ok (record { is_dir = true; is_symlink = false }), directory)
look (link_to t) = (ok (record { is_dir = false; is_symlink = true }), link_to t)

abbrev read : Entry → Result IoError Text × Entry
read (link_to t) = (ok t, link_to t)
read e = (err (other []), e)

-- Every path leads to the one entry.
abbrev one_entry : FileSystem Entry
one_entry = record {
  canonicalize = λ p e. (ok p, e);
  symlink_metadata = λ p e. look e;
  read_link = λ p e. read e;
  symlink = λ t p e. (ok tt, link_to t);
  remove_file = λ p e. (ok tt, missing);
  remove_dir_all = λ p e. (ok tt, missing);
  is_empty_dir = λ p e. (ok true, e);
  exists = λ p e. (true, e);
  create_dir_all = λ p e. (ok tt, e);
  parent = λ p. none;
  display = λ e. [];
}

abbrev at : Text → Entry → Entry
at p e = e

looked :
    (e : Entry)
    → Ends (λ meta e'. Unit) (λ error e'. error ≡ not_found → at [] e' ≡ missing) (look e)
looked missing = record { holds = λ h. refl }
looked file = record { holds = tt }
looked directory = record { holds = tt }
looked (link_to t) = record { holds = tt }

was_read : (e : Entry) → Ends (λ t e'. at [] e' ≡ link_to t) (λ error e'. Unit) (read e)
was_read missing = record { holds = tt }
was_read file = record { holds = tt }
was_read directory = record { holds = tt }
was_read (link_to t) = record { holds = refl }

one_entry-IsFileSystem : IsFileSystem one_entry at
one_entry-IsFileSystem = record {
  looks = λ p e. looked e;
  reads = λ p e. was_read e;
  links = λ t p e. record { holds = refl };
  removes = λ p e. record { holds = refl };
}

abbrev current : FileSymlinkSpec
current = record {
  path = codes "/opt/app";
  target = codes "/opt/v2";
  state = present;
  force = false;
}

abbrev linked : Resource Text
linked = record {
  id = codes "file.symlink:app";
  kind = codes "file.symlink";
  spec_version = 1;
  payload = [];
  reload_on = [];
  restart_on = [];
  depends_on = [];
}

abbrev any_diff : Diff Text
any_diff = add [] []

abbrev from_value : Text → Result Text FileSymlinkSpec
from_value payload = ok current

updated_link :
    symlink_apply one_entry from_value linked any_diff (link_to (codes "/opt/v1"))
    ≡ (ok (changed_with (codes "updated symlink /opt/app -> /opt/v2")), link_to (codes "/opt/v2"))
unfolding symlink_apply converge validate_symlink validate_path decide_action_symlink
    replace_symlink components segments of_segments is_prefix any text_eq ◌>>=◌ match_result map_err
updated_link = refl

symlink_apply-settles_example : Settled present (codes "/opt/v2") (link_to (codes "/opt/v2"))
symlink_apply-settles_example =
    symlink_apply-settles one_entry-IsFileSystem current from_value linked any_diff
      (link_to (codes "/opt/v1")) (link_to (codes "/opt/v2"))
      (changed_with (codes "updated symlink /opt/app -> /opt/v2")) refl refl updated_link

resolved_module :
    resolve_within_root one_entry (codes "/b") (codes "roles/pg.star") file
    ≡ (ok (codes "/b/roles/pg.star"), file)
unfolding resolve_within_root check_relative check_components components segments of_segments
    is_prefix any text_eq ◌>>=◌ match_result map_err
resolved_module = refl

resolve_within_root-IsInside_example :
    IsInside one_entry (codes "/b") (codes "roles/pg.star") file (codes "/b/roles/pg.star") file
resolve_within_root-IsInside_example =
    resolve_within_root-IsInside one_entry (codes "/b") (codes "roles/pg.star")
      (codes "/b/roles/pg.star") file file resolved_module
