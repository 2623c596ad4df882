-- ===== src/Vpn/SplitInclude.antt =====
-- The split-tunnel attributes of an IKEv2 configuration reply (vpn/ipsec/split_include.py). The
-- addresses of the `ipaddress` package are parameters: the text of a network, and which text is the
-- IPv4 default route.
use fortigate_vpn_linux_gui.Prelude.{
  ℕ, zero, suc, String, Bool, true, false, not, ◌&&◌, ◌||◌, Option, none, some, List, [], ◌∷◌, ◌++◌,
  any, leb, length, drop, contains, str_eq, is_some, if◌then◌else◌,
}
mod Laws
mod Tests

pub data TunnelMode : Type 0 where
  split full : TunnelMode

pub record SplitIncludeInfo : Type 0 where
  pub prefixes : List String
  pub source : String
  pub tunnel_mode : TunnelMode
  pub dns_servers : List String
  pub dns_domains : List String

abbrev pub is_split_mode : TunnelMode → Bool
is_split_mode split = true
is_split_mode full = false

abbrev pub is_split : SplitIncludeInfo → Bool
is_split info = is_split_mode info.tunnel_mode

abbrev pub is_catch_all_domain : String → Bool
is_catch_all_domain domain = str_eq domain "." || str_eq domain "~." || str_eq domain "0.0.0.0/0"

unfoldable pub requests_full_tunnel_dns : SplitIncludeInfo → Bool
requests_full_tunnel_dns info = any is_catch_all_domain info.dns_domains

unfoldable pub catch_all_dns : SplitIncludeInfo → Bool
unfolding requests_full_tunnel_dns
catch_all_dns info = if requests_full_tunnel_dns info then true else not (is_split info)

unfoldable pub routes : SplitIncludeInfo → List String
routes info = if is_split info then info.prefixes else "0.0.0.0/0" ∷ []

abbrev pub is_empty : List String → Bool
is_empty [] = true
is_empty (x ∷ xs) = false

-- `left or right`, on tuples.
abbrev pub or_list : List String → List String → List String
or_list left right = if is_empty left then right else left

unfoldable pub installs_default_route : Option SplitIncludeInfo → Bool
installs_default_route none = true
installs_default_route (some info) = not (is_split info)

module _ (is_wildcard : String → Bool) where
  abbrev pub has_nets : List String → Bool
  has_nets prefixes = not (is_empty prefixes) && not (any is_wildcard prefixes)

  -- The end of the classification: the selected prefixes and where they come from.
  unfoldable pub classified : List String → String → List String → List String → SplitIncludeInfo
  classified selected source dns_servers dns_domains =
      if is_empty selected || any is_wildcard selected
      then record {
        prefixes = [];
        source = if is_empty selected then "none" else source;
        tunnel_mode = full;
        dns_servers = dns_servers;
        dns_domains = dns_domains;
      }
      else record {
        prefixes = selected;
        source = source;
        tunnel_mode = split;
        dns_servers = dns_servers;
        dns_domains = dns_domains;
      }

  -- The prefixes of the four attributes, in the order of their priority.
  unfoldable pub classify :
      List String
      → List String
      → List String
      → List String
      → List String
      → List String
      → SplitIncludeInfo
  classify unity_include rfc_subnet fortinet local_lan dns_servers dns_domains =
      if not (is_empty unity_include)
      then classified unity_include "UNITY_SPLIT_INCLUDE" dns_servers dns_domains
      else if not (is_empty rfc_subnet)
      then classified rfc_subnet "INTERNAL_IP4_SUBNET" dns_servers dns_domains
      else if not (is_empty fortinet)
      then classified fortinet "0x540c" dns_servers dns_domains
      else if not (is_empty local_lan)
      then classified local_lan "UNITY_LOCAL_LAN" dns_servers dns_domains
      else classified [] "none" dns_servers dns_domains

  -- The mode of two partial lines, given the prefixes of the newer line or else of the older one.
  abbrev pub merged_mode : List String → TunnelMode → TunnelMode → TunnelMode
  merged_mode prefixes current incoming =
      if is_split_mode incoming || is_split_mode current
      then (if has_nets prefixes then split else full)
      else incoming

  unfoldable pub merge : Option SplitIncludeInfo → SplitIncludeInfo → SplitIncludeInfo
  merge none incoming = incoming
  merge (some current) incoming =
      let prefixes = or_list incoming.prefixes current.prefixes in
      let mode = merged_mode prefixes current.tunnel_mode incoming.tunnel_mode in
      record {
        prefixes = if is_split_mode mode then prefixes else [];
        source = if str_eq incoming.source "none" then current.source else incoming.source;
        tunnel_mode = mode;
        dns_servers = or_list incoming.dns_servers current.dns_servers;
        dns_domains = or_list incoming.dns_domains current.dns_domains;
      }

  unfoldable pub apply_split_to_remote_ts : List String → Option SplitIncludeInfo → List String
  apply_split_to_remote_ts remote none = remote
  apply_split_to_remote_ts remote (some info) =
      if not (is_split info) || is_empty info.prefixes
      then remote
      else if not (any is_wildcard remote)
      then remote
      else info.prefixes
