-- ===== src/Resources/Names.antt =====
-- The names, ports, paths and arguments of internal/resources/const.go.
use dragonfly_operator.Prelude.{String}
use dragonfly_operator.Prelude.Int.{ℤ, pos}

abbrev pub dragonfly_port_name : String
dragonfly_port_name = "redis"

abbrev pub dragonfly_port : ℤ
dragonfly_port = pos 6379

abbrev pub dragonfly_admin_port_name : String
dragonfly_admin_port_name = "admin"

abbrev pub admin_port : ℤ
admin_port = pos 9999

abbrev pub memcached_port_name : String
memcached_port_name = "memcached"

abbrev pub memcached_port_arg : String
memcached_port_arg = "--memcached_port"

abbrev pub acl_volume_name : String
acl_volume_name = "dragonfly-acl"

abbrev pub acl_dir : String
acl_dir = "/var/lib/dragonfly"

abbrev pub acl_file_name : String
acl_file_name = "dragonfly.acl"

abbrev pub acl_file_arg : String
acl_file_arg = "--aclfile"

abbrev pub snapshots_volume_name : String
snapshots_volume_name = "df"

abbrev pub snapshots_dir : String
snapshots_dir = "/dragonfly/snapshots"

abbrev pub snapshots_dir_arg : String
snapshots_dir_arg = "--dir"

abbrev pub snapshots_cron_arg : String
snapshots_cron_arg = "--snapshot_cron"

abbrev pub tls_volume_name : String
tls_volume_name = "dragonfly-tls"

abbrev pub tls_dir : String
tls_dir = "/etc/dragonfly-tls"

abbrev pub tls_ca_cert_path_arg : String
tls_ca_cert_path_arg = "--tls_ca_cert_file"

abbrev pub tls_ca_cert_dir : String
tls_ca_cert_dir = "/etc/dragonfly/tls"

abbrev pub tls_ca_cert_file_name : String
tls_ca_cert_file_name = "ca.crt"

abbrev pub tls_ca_cert_volume_name : String
tls_ca_cert_volume_name = "client-ca-cert"

abbrev pub tls_cert_path_arg : String
tls_cert_path_arg = "--tls_cert_file"

abbrev pub tls_cert_file_name : String
tls_cert_file_name = "tls.crt"

abbrev pub tls_key_path_arg : String
tls_key_path_arg = "--tls_key_file"

abbrev pub tls_key_file_name : String
tls_key_file_name = "tls.key"

abbrev pub tls_arg : String
tls_arg = "--tls"

abbrev pub no_tls_on_admin_port_arg : String
no_tls_on_admin_port_arg = "--no_tls_on_admin_port"

abbrev pub dragonfly_image : String
dragonfly_image = "docker.dragonflydb.io/dragonflydb/dragonfly"

abbrev pub liveness_probe_config_map_suffix : String
liveness_probe_config_map_suffix = "liveness-probe"

abbrev pub readiness_probe_config_map_suffix : String
readiness_probe_config_map_suffix = "readiness-probe"

abbrev pub startup_probe_config_map_suffix : String
startup_probe_config_map_suffix = "startup-probe"

abbrev pub liveness_script_key : String
liveness_script_key = "liveness-check.sh"

abbrev pub readiness_script_key : String
readiness_script_key = "readiness-check.sh"

abbrev pub startup_script_key : String
startup_script_key = "startup-check.sh"

abbrev pub probe_mount_path : String
probe_mount_path = "/etc/dragonfly/probes"

abbrev pub liveness_probe_volume_name : String
liveness_probe_volume_name = "liveness-probe"

abbrev pub readiness_probe_volume_name : String
readiness_probe_volume_name = "readiness-probe"

abbrev pub startup_probe_volume_name : String
startup_probe_volume_name = "startup-probe"
