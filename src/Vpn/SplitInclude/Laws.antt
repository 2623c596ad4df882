-- ===== src/Vpn/SplitInclude/Laws.antt =====
-- What the split-tunnel attributes guarantee for the routes.
use fortigate_vpn_linux_gui.Prelude.{
  String, Bool, true, false, ◌&&◌, some, List, [], any, ◌≡◌, arith,
}
use fortigate_vpn_linux_gui.Vpn.SplitInclude.{
  SplitIncludeInfo, is_split, is_empty, has_nets, classified, classify, merge,
  installs_default_route, apply_split_to_remote_ts,
}

-- Split tunnels have prefixes, none of them the default route; full tunnels have none.
abbrev pub IsFormed : (String → Bool) → SplitIncludeInfo → Type 0
IsFormed is_wildcard info =
    (is_split info ≡ true → has_nets is_wildcard info.prefixes ≡ true)
    × (is_split info ≡ false → is_empty info.prefixes ≡ true)

module _ (is_wildcard : String → Bool) where
  classified-IsFormed :
      (selected : List String) (source : String) (servers domains : List String)
      → IsFormed is_wildcard (classified is_wildcard selected source servers domains)
  unfolding classified
  classified-IsFormed selected source servers domains = ground arith

  -- Whatever prefixes the four attributes carry, the classification is a split tunnel with prefixes
  -- of which none is the default route, or a full tunnel without prefixes.
  pub classify-IsFormed :
      (unity rfc fortinet local servers domains : List String)
      → IsFormed is_wildcard (classify is_wildcard unity rfc fortinet local servers domains)
  unfolding classify
  classify-IsFormed unity rfc fortinet local servers domains = ground (
    arith,
    classified-IsFormed unity "UNITY_SPLIT_INCLUDE" servers domains,
    classified-IsFormed rfc "INTERNAL_IP4_SUBNET" servers domains,
    classified-IsFormed fortinet "0x540c" servers domains,
    classified-IsFormed local "UNITY_LOCAL_LAN" servers domains,
    classified-IsFormed [] "none" servers domains,
  )

  -- Two partial lines merge into a split tunnel with prefixes of which none is the default route, or
  -- a full tunnel without prefixes, even if one of the lines is neither.
  pub merge-IsFormed :
      (current incoming : SplitIncludeInfo)
      → IsFormed is_wildcard (merge is_wildcard (some current) incoming)
  unfolding merge
  merge-IsFormed current incoming = ground arith

  -- For attributes in one of these two forms, the selectors of the tunnel keep a default route
  -- exactly if they had one and the attributes ask for the default route.
  pub any-apply_split_to_remote_ts :
      (remote : List String) (info : SplitIncludeInfo)
      → IsFormed is_wildcard info
      → any is_wildcard (apply_split_to_remote_ts is_wildcard remote (some info))
        ≡ any is_wildcard remote && installs_default_route (some info)
  unfolding apply_split_to_remote_ts installs_default_route
  any-apply_split_to_remote_ts remote info formed = ground arith
