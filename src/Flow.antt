-- ===== src/Flow.antt =====
-- The flow events that Hubble reports, as far as connectivity/filters and connectivity/check read
-- them. A nil *flow.Flow answers every getter with the zero value, so it is the flow whose fields
-- are all zero or `none`. A Protobuf enumeration is open, so it is a number with named values.
use cilium_cli.Prelude.{ℕ, String, Option, none, some, List, Bool}

abbrev pub verdict_dropped : ℕ
verdict_dropped = 2

abbrev pub direction_ingress : ℕ
direction_ingress = 1

abbrev pub direction_egress : ℕ
direction_egress = 2

abbrev pub reason_unknown : ℕ
reason_unknown = 0

abbrev pub reason_policy_denied : ℕ
reason_policy_denied = 133

abbrev pub reason_policy_deny : ℕ
reason_policy_deny = 181

abbrev pub reason_auth_required : ℕ
reason_auth_required = 189

pub record TcpFlags : Type 0 where
  pub fin : Bool
  pub syn : Bool
  pub rst : Bool
  pub ack : Bool

pub record Tcp : Type 0 where
  pub source_port : ℕ
  pub destination_port : ℕ
  pub flags : Option TcpFlags

pub record Udp : Type 0 where
  pub source_port : ℕ
  pub destination_port : ℕ

pub record Ip : Type 0 where
  pub source : String
  pub destination : String

-- the message in the protocol's `oneof`; an ICMP message counts by its type
pub data Layer4 : Type 0 where
  of_tcp : Tcp → Layer4
  of_udp : Udp → Layer4
  of_icmpv4 of_icmpv6 : ℕ → Layer4
  other_protocol : Layer4

pub record Dns : Type 0 where
  pub query : String
  pub rcode : ℕ

-- a header, where the pointer is not nil
pub record HttpHeader : Type 0 where
  pub key : String
  pub value : String

pub record Http : Type 0 where
  pub code : ℕ
  pub method : String
  pub url : String
  pub protocol : String
  pub headers : List (Option HttpHeader)

pub data Layer7 : Type 0 where
  of_dns : Dns → Layer7
  of_http : Http → Layer7
  other_record : Layer7

-- `time` is the flow's timestamp where it is valid, in nanoseconds since Go's zero time.
pub record Flow : Type 0 where
  pub verdict : ℕ
  pub drop_reason_desc : ℕ
  pub traffic_direction : ℕ
  pub ip : Option Ip
  pub l4 : Option Layer4
  pub l7 : Option Layer7
  pub time : Option ℕ

-- The getters of the `oneof` fields, which pass nil on.
abbrev pub get_tcp : Option Layer4 → Option Tcp
get_tcp (some (of_tcp t)) = some t
get_tcp (some _) = none
get_tcp none = none

abbrev pub get_udp : Option Layer4 → Option Udp
get_udp (some (of_udp u)) = some u
get_udp (some _) = none
get_udp none = none

abbrev pub get_icmpv4 : Option Layer4 → Option ℕ
get_icmpv4 (some (of_icmpv4 t)) = some t
get_icmpv4 (some _) = none
get_icmpv4 none = none

abbrev pub get_icmpv6 : Option Layer4 → Option ℕ
get_icmpv6 (some (of_icmpv6 t)) = some t
get_icmpv6 (some _) = none
get_icmpv6 none = none

abbrev pub get_dns : Option Layer7 → Option Dns
get_dns (some (of_dns d)) = some d
get_dns (some _) = none
get_dns none = none

abbrev pub get_http : Option Layer7 → Option Http
get_http (some (of_http h)) = some h
get_http (some _) = none
get_http none = none
