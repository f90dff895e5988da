-- ===== src/Topology/Link.antt =====
-- TopologyConfig::ReadLinkProperty (plugins/TopologyConfig.cxx) and the struct LinkProperty
-- (plugins/TopologyData.h).
pub mod Parse
use nestdaq.Base.{ℕ, List, [], ◌∷◌, ◌++◌, Option, none, some, length, if◌then◌else◌}
use nestdaq.Text.{Text, codes, text_eq, join}
use nestdaq.Text.Search.{npos, size_suc, size_sub, find_first_of, find_last_of, substr, text_lt}
use nestdaq.Redis.{Redis}
use nestdaq.Topology.Channel.{Config}

pub record LinkProperty : Type 0 where
  -- near
  pub my_service : Text
  pub my_channel : Text
  -- far
  pub peer_service : Text
  pub peer_channel : Text
  pub options : Text

abbrev no_link : LinkProperty
no_link = record {
  my_service = [];
  my_channel = [];
  peer_service = [];
  peer_channel = [];
  options = [];
}

abbrev pub link_prefix : Config → Text
link_prefix cfg = join (cfg.top_prefix ∷ codes "topology" ∷ codes "link" ∷ [] ∷ []) cfg.separator

-- The four names: the left service and channel, then the right ones.
pub record Ends : Type 0 where
  pub service_l : Text
  pub channel_l : Text
  pub service_r : Text
  pub channel_r : Text

-- The cuts at the comma and at the last separators in front of it and of the end; `none` is an
-- exception.
pub split_pair : Text → Text → Option Ends
split_pair sep pair =
    let comma = find_first_of pair (codes ",") in
    let first_sep = find_last_of pair sep comma in
    let second_sep = find_last_of pair sep npos in
    elim (substr pair 0 first_sep) [
      | none ↦ none
      | some sl ↦ elim (substr pair (size_suc first_sep) (size_sub comma (size_suc first_sep))) [
        | none ↦ none
        | some cl ↦ elim (substr pair (size_suc comma) (size_sub second_sep (size_suc comma))) [
          | none ↦ none
          | some sr ↦ elim (substr pair (size_suc second_sep) npos) [
            | none ↦ none
            | some cr ↦
                some (record { service_l = sl; channel_l = cl; service_r = sr; channel_r = cr })
          ]
        ]
      ]
    ]

-- The assignment for a service that is linked with itself
same_service : Ends → LinkProperty → LinkProperty
same_service e lp =
    if text_eq e.service_l e.service_r
    then record lp {
      my_service = e.service_l;
      peer_service = e.service_r;
      my_channel = if text_lt e.channel_l e.channel_r then e.channel_l else e.channel_r;
      peer_channel = if text_lt e.channel_l e.channel_r then e.channel_r else e.channel_l;
    }
    else lp

-- and the one that follows it
near_far : Text → Ends → LinkProperty → LinkProperty
near_far mine e lp =
    if text_eq e.service_l mine
    then record lp {
      my_service = e.service_l;
      my_channel = e.channel_l;
      peer_service = e.service_r;
      peer_channel = e.channel_r;
    }
    else record lp {
      my_service = e.service_r;
      my_channel = e.channel_r;
      peer_service = e.service_l;
      peer_channel = e.channel_l;
    }

-- The read of a value that is not there is undefined: `none` as well.
module _ (R : Redis) where
  pub read_link_property : Config → Text → R.Store → Option LinkProperty
  unfolding split_pair same_service near_far
  read_link_property cfg key s = elim (substr key (length (link_prefix cfg)) npos) [
    | none ↦ none
    | some pair ↦ elim (split_pair cfg.separator pair) [
      | none ↦ none
      | some e ↦ elim (R.get key s) [
        | none ↦ none
        | some val ↦
            some (record (near_far cfg.service_name e (same_service e no_link)) { options = val })
      ]
    ]
  ]
