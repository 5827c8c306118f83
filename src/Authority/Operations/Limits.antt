-- ===== src/Authority/Operations/Limits.antt =====
-- What is authorized to be spent, and which hosts may be called, against the tiers.
use protostar.Base.{
  ◌≡◌, refl, sym, ◌∙◌, ◌⊎◌, inl, inr, String, true, false, not, ◌&&◌, ◌||◌, List, [], ◌∷◌, ◌++◌,
  Option, none, some, map, arith, ◌==◌, any, all, is_empty, Bool-cases,
}
use protostar.Base.Number.{Number, fin, pos, le_num, le_num_trans, is_finite}
use protostar.Authority.Envelope.{
  BudgetField, NetworkAllow, deny, loopback, allowlist, TierConstraint,
}
use protostar.Authority.Tiers.{tool_permission_key, tools_of, network_of, is_deny}
use protostar.Authority.Precedence.{intersect_network, intersect_envelopes}
use protostar.Authority.Precedence.Limits.{
  IsLimitOfSome, IsLeastLimit, intersect_envelopes-IsLeastLimit,
}
use protostar.Authority.Precedence.Networks.{permits_host, intersect_envelopes-permits_host}
use protostar.Authority.Operations.{
  grants_network, is_within_cap, has_network_grant, has_budget_grant, demand, no_network_grant,
  no_budget_grant, invalid_amount, url_not_http, authorize_budget_op, Url, is_loopback_host,
  strip_brackets, host_errors, url_errors, authorize_network_op,
}
use protostar.Authority.Operations.Keys.{is_plain_tool}
use protostar.Authority.Operations.Least.{
  is_authorized, resolved, is_plain, conclude-errors, is_empty-append, is_empty-demand, every_tier,
  grants_network-respects, any-subtract_denied_tools,
}

pub within_least :
    (field : BudgetField) (tiers : List TierConstraint) (amount : Number) (cap : Option Number)
    → IsLeastLimit field tiers cap
    → is_within_cap amount cap ≡ true
    → ((v : Number) × IsLimitOfSome field tiers v)
      × ((v : Number) → IsLimitOfSome field tiers v → le_num amount v ≡ true)
within_least field tiers amount none h k = cc
within_least field tiers amount (some cap) (own, least) k =
    ((cap, own), λ v e. le_num_trans amount cap v k (least v e))

-- Where spending an amount is authorized under the envelope that the tiers resolve to, the amount is
-- finite and not negative, some tier sets a finite limit for it, and the amount is within every finite
-- limit that a tier sets.
pub authorize_budget_op-within :
    (t : TierConstraint) (ts : List TierConstraint) (boundary : String) (budget_key : BudgetField)
    (amount : Number)
    → is_authorized (
        authorize_budget_op (record {
          boundary = boundary;
          budget_key = budget_key;
          amount = amount;
          resolved_envelope = resolved t ts;
        }))
      ≡ true
    → (is_finite amount && le_num (fin (pos 0)) amount ≡ true)
      × ((v : Number) × IsLimitOfSome budget_key (t ∷ ts) v)
      × ((v : Number) → IsLimitOfSome budget_key (t ∷ ts) v → le_num amount v ≡ true)
unfolding authorize_budget_op has_budget_grant
authorize_budget_op-within t ts boundary budget_key amount h =
    let valid = is_finite amount && le_num (fin (pos 0)) amount in
    let es = demand valid invalid_amount in
    let (finite, granted) = is_empty-append es _ (sym (conclude-errors _ (es ++ _)) ∙ h) in
    let (limited, within) =
      within_least budget_key (t ∷ ts) amount _ (intersect_envelopes-IsLeastLimit t ts budget_key)
        (sym (is_empty-demand _ no_budget_grant) ∙ granted) in
    (sym (is_empty-demand valid invalid_amount) ∙ finite, limited, within)

-- A tier that denies the network denies it for all.
any-deny :
    (tiers : List TierConstraint)
    → is_deny (intersect_network tiers).allow ≡ false
    → any (λ n. is_deny n.allow) (map network_of tiers) ≡ false
unfolding intersect_network
any-deny tiers h = elim (Bool-cases (any (λ n. is_deny n.allow) (map network_of tiers))) [
  | inl denied ↦ cc (rw denied at h)
  | inr open_network ↦ open_network
]

none_denies :
    (tiers : List TierConstraint)
    → any (λ n. is_deny n.allow) (map network_of tiers) ≡ false
    → all (λ u. not (is_deny (network_of u).allow)) tiers ≡ true
none_denies [] h = refl
none_denies (t ∷ ts) h = ground (arith, none_denies ts)

host_checked :
    (hostname : String) (allow : NetworkAllow) (hosts : Option (List String))
    → is_empty (host_errors hostname (some (record { allow = allow; allowed_hosts = hosts })))
      ≡ true
    → (is_deny allow ≡ false)
      × ((is_loopback_host (strip_brackets hostname) ≡ true)
          ⊎ (permits_host (record { allow = allow; allowed_hosts = hosts }) hostname ≡ true))
host_checked hostname deny hosts h = cc
host_checked hostname loopback hosts h = (refl, inl (sym (is_empty-demand _ _) ∙ h))
host_checked hostname allowlist hosts h = (refl, inr (sym (is_empty-demand _ _) ∙ h))

-- What holds of a call to a host.
abbrev pub IsCallable : List TierConstraint → Url → Type 0
IsCallable tiers url =
    (url.protocol == "http:" || url.protocol == "https:" ≡ true)
    × (all (λ u. not (is_deny (network_of u).allow)) tiers ≡ true)
    × ((is_loopback_host (strip_brackets url.hostname) ≡ true)
        ⊎ (all (λ u. permits_host (network_of u) url.hostname) tiers ≡ true))

url_checked :
    (t : TierConstraint) (ts : List TierConstraint) (parsed : Option Url)
    → is_empty (url_errors parsed (resolved t ts).network) ≡ true
    → (url : Url) × (parsed ≡ some url) × IsCallable (t ∷ ts) url
unfolding intersect_envelopes
url_checked t ts none h = cc
url_checked t ts (some url) h =
    let web = url.protocol == "http:" || url.protocol == "https:" in
    let (http, host) = is_empty-append (demand web url_not_http) _ h in
    let (not_denied, called) =
      host_checked url.hostname _ (intersect_network (t ∷ ts)).allowed_hosts host in
    (
      url,
      refl,
      (
        sym (is_empty-demand web url_not_http) ∙ http,
        none_denies (t ∷ ts) (any-deny (t ∷ ts) not_denied),
        elim called [
          | inl local ↦ inl local
          | inr listed ↦ inr (sym (intersect_envelopes-permits_host t ts url.hostname) ∙ listed)
        ],
      ),
    )

-- Where a network operation is authorized under the envelope that the tiers resolve to, its URL can
-- be parsed and is of http or https, every tier lists a network permission of a level that is
-- enough, no tier denies the network, and the host is the local machine or one that every tier's
-- list of hosts permits. The texts of the tiers' grants are assumed to have no zero character.
pub authorize_network_op-IsCallable :
    (t : TierConstraint) (ts : List TierConstraint)
    → all is_plain (t ∷ ts) ≡ true
    → (parse_url : String → Option Url) (method url : String)
    → is_authorized (
        authorize_network_op parse_url
          (record { method = method; url = url; resolved_envelope = resolved t ts }))
      ≡ true
    → ((parsed : Url) × (parse_url url ≡ some parsed) × IsCallable (t ∷ ts) parsed)
      × (all (λ u. any grants_network (tools_of u)) (t ∷ ts) ≡ true)
unfolding authorize_network_op has_network_grant intersect_envelopes
authorize_network_op-IsCallable t ts plain parse_url method url h =
    let es = url_errors (parse_url url) (resolved t ts).network in
    let (called, granted) = is_empty-append es _ (sym (conclude-errors _ (es ++ _)) ∙ h) in
    (
      url_checked t ts (parse_url url) called,
      every_tier t ts plain tool_permission_key is_plain_tool grants_network tools_of
          grants_network-respects (λ u k. ground arith)
          (any-subtract_denied_tools grants_network _ (t ∷ ts)
            (sym (is_empty-demand _ no_network_grant) ∙ granted)),
    )
