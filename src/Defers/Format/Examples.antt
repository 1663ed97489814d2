-- ===== src/Defers/Format/Examples.antt =====
-- Runs and witnesses of Format and its children.
use bonsun.Base.{◌≡◌, refl, true, false, [], none, text_le, codes, arith}
use bonsun.Defers.Format.{
  DeferAction, DeferEntry, filename, filename_slug, default_priority, make_id, sortkey,
  manual_clear_filename,
}
use bonsun.Defers.Format.Names.{filename_order}

abbrev pub unit_entry : DeferAction → DeferEntry
unit_entry a = record {
  spec_version = 1;
  id = make_id (codes "systemd") a (codes "nginx.service");
  action = a;
  init_system = codes "systemd";
  target = codes "nginx.service";
  validate_cmd = none;
  health_check = none;
  priority = default_priority a;
  enqueued_at = 0;
  enqueued_by = [];
  attempt_count = 0;
  max_attempts = 3;
}

filename_run :
    filename (unit_entry DeferAction.restart) ≡ codes "0r-systemd.restart:nginx.service.deferred"
unfolding filename sortkey make_id default_priority filename_slug
filename_run = refl

manual_clear_filename_run :
    manual_clear_filename (unit_entry DeferAction.daemon_reload)
    ≡ codes "4d-systemd.daemon_reload.manual_clear"
unfolding manual_clear_filename sortkey make_id default_priority
manual_clear_filename_run = refl

make_id_run : make_id [] (DeferAction.command []) (codes "abc") ≡ codes "command.run:abc"
unfolding make_id
make_id_run = refl

filename_order_example :
    (text_le (filename (unit_entry DeferAction.restart)) (filename (unit_entry DeferAction.reload))
      ≡ true)
    × (text_le
          (filename (unit_entry DeferAction.reload))
          (filename (unit_entry DeferAction.restart))
        ≡ false)
unfolding default_priority
filename_order_example =
    filename_order (unit_entry DeferAction.restart) (unit_entry DeferAction.reload) (omega arith)
