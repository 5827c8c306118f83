-- ===== src/Authority/Precedence/Networks.antt =====
-- The network of the resolved envelope.
use protostar.Base.{
  ◌≡◌, refl, sym, ap, ◌∙◌, String, Bool, true, false, not, ◌&&◌, List, [], ◌∷◌, map, none, some,
  arith, has, any, all, has-filter, is_empty, if◌then◌else◌, or_else,
}
use protostar.Authority.Envelope.{loopback, allowlist, NetworkAllow, Network, TierConstraint}
use protostar.Authority.Precedence.{common_hosts, intersect_envelopes}
use protostar.Authority.Tiers.{network_of, hosts_of, is_deny, is_loopback, no_network}

abbrev pub is_allowlist : NetworkAllow → Bool
is_allowlist allowlist = true
is_allowlist _ = false

-- The network reaches the host by its allowlist.
abbrev pub permits_host : Network → String → Bool
permits_host n h = is_allowlist n.allow && has (hosts_of n) h

-- What intersectNetwork returns, by whether a tier denies, whether one allows loopback only, and
-- the hosts that all list.
abbrev network_for : (denies loops : Bool) → List String → Network
network_for denies loops hosts =
    if denies
    then no_network
    else if loops
    then record { allow = loopback; allowed_hosts = none }
    else if is_empty hosts
    then no_network
    else record { allow = allowlist; allowed_hosts = some hosts }

permits_host-network_for :
    (denies loops : Bool) (hosts : List String) (h : String)
    → permits_host (network_for denies loops hosts) h ≡ (not denies && (not loops && has hosts h))
permits_host-network_for true loops hosts h = refl
permits_host-network_for false true hosts h = refl
permits_host-network_for false false [] h = refl
permits_host-network_for false false (x ∷ xs) h = refl

all_allowlists :
    (ns : List Network) (h : String)
    → all (λ n. permits_host n h) ns ≡ (
        not (any (λ n. is_deny n.allow) ns)
        && (not (any (λ n. is_loopback n.allow) ns) && all (λ n. has (hosts_of n) h) ns))
all_allowlists [] h = refl
all_allowlists (n ∷ ns) h = ground (arith, all_allowlists ns h)

common_hosts-has :
    (n : Network) (ns : List Network) (h : String)
    → has (common_hosts (n ∷ ns)) h ≡ all (λ n. has (hosts_of n) h) (n ∷ ns)
common_hosts-has n ns h =
    ground (arith, has-filter (λ h. all (λ n. has (hosts_of n) h) ns) (hosts_of n) h)

permits_host-resolved :
    (n : Network) (ns : List Network) (h : String)
    → permits_host
        (network_for
          (any (λ n. is_deny n.allow) (n ∷ ns))
          (any (λ n. is_loopback n.allow) (n ∷ ns))
          (common_hosts (n ∷ ns)))
        h
      ≡ all (λ n. permits_host n h) (n ∷ ns)
permits_host-resolved n ns h =
    let denies = any (λ n. is_deny n.allow) (n ∷ ns) in
    let loops = any (λ n. is_loopback n.allow) (n ∷ ns) in
    permits_host-network_for denies loops (common_hosts (n ∷ ns)) h
    ∙ ap (λ b. not denies && (not loops && b)) (common_hosts-has n ns h)
    ∙ sym (all_allowlists (n ∷ ns) h)

all-map :
    (p : Network → Bool) (ts : List TierConstraint)
    → all p (map network_of ts) ≡ all (λ t. p (network_of t)) ts
all-map p [] = refl
all-map p (t ∷ ts) = rw (all-map p ts)

-- With at least one tier, the resolved network reaches a host by its allowlist exactly when the
-- network of every tier does; a tier without a network reaches none.
pub intersect_envelopes-permits_host :
    (t : TierConstraint) (ts : List TierConstraint) (h : String)
    → permits_host (or_else (intersect_envelopes (t ∷ ts)).resolved_envelope.network no_network) h
      ≡ all (λ t. permits_host (network_of t) h) (t ∷ ts)
unfolding intersect_envelopes
intersect_envelopes-permits_host t ts h =
    permits_host-resolved (network_of t) (map network_of ts) h
    ∙ all-map (λ n. permits_host n h) (t ∷ ts)
