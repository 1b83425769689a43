-- ===== src/Requests/Options.antt =====
-- The options of the collector's loop: `Options` and `applyDefaultOptions` of
-- images/dmcr/internal/garbagecollection/options.go, with `defaultExecutorIdentity` of executor_lease.go.
-- The name of the host is a parameter.
pub mod Defaults
use ai_models.Prelude.{ℕ, ◌*◌, ◌^◌, String, Option, none, some, Bool, if◌then◌else◌}
use ai_models.Prelude.Text.{is_empty, trim_space}
use ai_models.Prelude.Int64.{Int64, add64, lt64, le64}
use ai_models.Lease.{default_executor_lease_duration}

pub record Options : Type 0 where
  pub request_namespace : String
  pub request_label_selector : String
  pub registry_binary : String
  pub config_path : String
  pub gc_timeout : Int64
  pub rescan_interval : Int64
  pub activation_delay : Int64
  pub completed_request_ttl : Int64
  pub schedule : String
  pub executor_lease_name : String
  pub executor_identity : String
  pub executor_lease_duration : Int64
  pub executor_lease_renew_interval : Int64
  pub maintenance_gate_name : String
  pub maintenance_gate_duration : Int64
  pub maintenance_gate_delay : Int64
  pub maintenance_gate_file : String
  pub maintenance_gate_mirror_interval : Int64
  pub maintenance_gate_ack_quorum : Int64
  pub maintenance_gate_ack_ttl : Int64

abbrev pub second : Int64
second = 10 ^ 9

abbrev pub minute : Int64
minute = 60 * second

unfoldable pub or_text : String → String → String
or_text text default = if is_empty (trim_space text) then default else text

unfoldable pub or_positive : Int64 → Int64 → Int64
or_positive value default = if le64 value 0 then default else value

unfoldable pub at_least : Int64 → Int64 → Int64
at_least value least = if lt64 value least then least else value

abbrev pub not_negative : Int64 → Int64
not_negative value = if lt64 value 0 then 0 else value

unfoldable pub gate_delay : Int64 → Int64
gate_delay value = if le64 (not_negative value) 0 then 10 * second else not_negative value

unfoldable pub default_executor_identity : Option String → String
default_executor_identity none = "dmcr-gc-executor"
default_executor_identity (some host) =
    if is_empty (trim_space host) then "dmcr-gc-executor" else trim_space host

abbrev pub gc_timeout_of : Options → Int64
gc_timeout_of o = or_positive o.gc_timeout (10 * minute)

unfoldable pub apply_default_options : Option String → Options → Options
apply_default_options host o = record o {
  request_label_selector = or_text o.request_label_selector "ai.deckhouse.io/dmcr-gc-request=true";
  registry_binary = or_text o.registry_binary "/usr/bin/dmcr";
  config_path = or_text o.config_path "/etc/docker/registry/config.yml";
  gc_timeout = gc_timeout_of o;
  rescan_interval = or_positive o.rescan_interval (5 * second);
  activation_delay = or_positive o.activation_delay (10 * minute);
  completed_request_ttl = or_positive o.completed_request_ttl (60 * minute);
  executor_lease_name = or_text o.executor_lease_name "dmcr-gc-executor";
  executor_identity = or_text o.executor_identity (default_executor_identity host);
  executor_lease_duration = or_positive o.executor_lease_duration default_executor_lease_duration;
  executor_lease_renew_interval = or_positive o.executor_lease_renew_interval (15 * second);
  maintenance_gate_name = or_text o.maintenance_gate_name "dmcr-gc-maintenance";
  maintenance_gate_duration = at_least o.maintenance_gate_duration (add64 (gc_timeout_of o) minute);
  maintenance_gate_delay = gate_delay o.maintenance_gate_delay;
  maintenance_gate_file = or_text o.maintenance_gate_file "/run/dmcr-maintenance/gate.json";
  maintenance_gate_mirror_interval = or_positive o.maintenance_gate_mirror_interval second;
  maintenance_gate_ack_quorum = or_positive o.maintenance_gate_ack_quorum 1;
  maintenance_gate_ack_ttl = or_positive o.maintenance_gate_ack_ttl (5 * second);
}
