-- ===== src/Vpn/SplitInclude/Tests.antt =====
-- The theorems about the split-tunnel attributes at a reply with one network.
use fortigate_vpn_linux_gui.Prelude.{String, Bool, ◌&&◌, some, [], ◌∷◌, any, ◌≡◌, refl, sym, str_eq}
use fortigate_vpn_linux_gui.Vpn.SplitInclude.{
  split, SplitIncludeInfo, classify, merge, installs_default_route, apply_split_to_remote_ts,
}
use fortigate_vpn_linux_gui.Vpn.SplitInclude.Laws.{
  IsFormed, classify-IsFormed, merge-IsFormed, any-apply_split_to_remote_ts,
}

abbrev is_default_route : String → Bool
is_default_route prefix = str_eq prefix "0.0.0.0/0"

abbrev office_net : SplitIncludeInfo
office_net = record {
  prefixes = "10.1.0.0/16" ∷ [];
  source = "INTERNAL_IP4_SUBNET";
  tunnel_mode = split;
  dns_servers = [];
  dns_domains = [];
}

abbrev mode_line : SplitIncludeInfo
mode_line = record {
  prefixes = [];
  source = "none";
  tunnel_mode = split;
  dns_servers = [];
  dns_domains = [];
}

classify-IsFormed_example :
    IsFormed is_default_route
      (classify is_default_route [] ("10.1.0.0/16" ∷ []) [] ("0.0.0.0/0" ∷ []) [] [])
classify-IsFormed_example =
    classify-IsFormed is_default_route [] ("10.1.0.0/16" ∷ []) [] ("0.0.0.0/0" ∷ []) [] []

merge-IsFormed_example :
    IsFormed is_default_route (merge is_default_route (some mode_line) mode_line)
merge-IsFormed_example = merge-IsFormed is_default_route mode_line mode_line

any-apply_split_to_remote_ts_example :
    any is_default_route
      (apply_split_to_remote_ts is_default_route ("0.0.0.0/0" ∷ []) (some office_net))
    ≡ any is_default_route ("0.0.0.0/0" ∷ []) && installs_default_route (some office_net)
any-apply_split_to_remote_ts_example =
    any-apply_split_to_remote_ts is_default_route ("0.0.0.0/0" ∷ []) office_net
      ((λ s. refl), (λ s. sym s))
