-- ===== src/Base/Results.antt =====
-- A Go call that returns `(value, error)` or panics. An error is one of the environment's, or one
-- that the program makes, which may wrap another: `fmt.Errorf("stage: %w", err)`.
use Prim.Native.Nat.{ℕ}

-- The places where the program makes an error of its own, named after the message.
pub data Stage : Type 0 where
  -- lock.go
  creating_lock_directory opening_lock_file acquiring_exclusive_lock timed_out : Stage
  -- handler.go
  creating_lock acquiring_lock ipam_add_stage converting_ipam_result converting_result : Stage
  ensuring_bridge bridge_address_add vhost_socket_dir interface_add_stage : Stage
  moving_tap configuring_pod listing_interfaces creating_bridge : Stage
  gc_listing port_missing socket_missing parsing_prev_result converting_prev_result : Stage
  expected_addresses verifying_pod invoking_ipam invoking_ipam_gc : Stage
  -- netns.go
  finding_link opening_netns moving_link finding_moved_link setting_down renaming : Stage
  refinding_link setting_mtu setting_mac configuring_iface : Stage
  link_not_found link_down listing_addresses address_missing : Stage
  -- config.go
  parsing_config ipam_required name_required bad_mtu bridge_name_too_long : Stage
  bad_interface_type bad_log_level : Stage
  -- client.go and protocol.go
  writing_header writing_payload reading_header payload_too_large reading_payload : Stage
  id_mismatch grout_status decoding_response : Stage
  interface_list_failed interface_add_failed interface_del_failed : Stage
  vxlan_required vxlan_local devargs_too_long : Stage
  address_add_failed address_del_failed flush4_failed flush6_failed invalid_address : Stage
  route_add_failed route_del_failed invalid_next_hop invalid_destination not_ipv4 : Stage
  flood_add_failed flood_del_failed flood_list_failed : Stage
  -- main.go and Dial
  connecting handshake loading_config cni_add_failed status_unreachable : Stage

pub data Error : Type 0 where
  external : ℕ → Error
  new : Stage → Error
  in_stage : Stage → Error → Error

-- `panic` is a run-time panic, such as an index out of range or a nil dereference.
pub data Result {ℓ} (A : Type ℓ) : Type ℓ where
  ok : A → Result A
  err : Error → Result A
  panic : Result A

abbrev pub bind {ℓ κ} : {A : Type ℓ} {B : Type κ} → Result A → (A → Result B) → Result B
bind (ok a) f = f a
bind (err e) f = err e
bind panic f = panic

-- `if err != nil { return fmt.Errorf("…: %w", err) }`
abbrev pub wrap {ℓ} : {A : Type ℓ} → Stage → Result A → Result A
wrap s (ok a) = ok a
wrap s (err e) = err (in_stage s e)
wrap s panic = panic
