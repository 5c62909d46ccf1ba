-- ===== src/Gateway/Proxied.antt =====
-- Which headers the reverse proxy leaves alone.
use agentland.Base.{false, List, [], ◌∷◌, ◌≡◌, refl, ◌∙◌, Bool-cases, inl, inr, if◌then◌else◌}
use agentland.Text.{Bytes, bytes, bytes_eq, to_lower}
use agentland.Gateway.Http.{
  Headers, mentions, hop_headers, listed_names, connection_names, remove_hop_by_hop, with_trailers,
  upgrade_type, with_upgrade, with_client, proxied,
}

-- What is left of a header after the headers that Connection names are removed; `connection` are the
-- values of Connection.
abbrev pub unless_named : Bytes → List Bytes → List Bytes → List Bytes
unless_named k connection vs = if mentions k (listed_names connection) then [] else vs

-- A header that the proxy has no part in.
pub record IsEndToEnd (k : Bytes) : Type 0 where
  pub agent : bytes_eq (bytes "user-agent") k ≡ false
  pub client : bytes_eq (bytes "x-forwarded-for") k ≡ false
  pub upgrade : bytes_eq (bytes "upgrade") k ≡ false
  pub connection : bytes_eq (bytes "connection") k ≡ false
  pub te : bytes_eq (bytes "te") k ≡ false
  pub hop : mentions k hop_headers ≡ false

module _ (k : Bytes) (e : IsEndToEnd k) where
  kept_client : (c : Bytes) (h : Headers) → with_client c h k ≡ h k
  unfolding to_lower
  kept_client [] h = refl
  kept_client (b ∷ c) h = rw e.client refl

  kept_upgrade : (kind : Bytes) (h : Headers) → with_upgrade kind h k ≡ h k
  unfolding to_lower
  kept_upgrade [] h = refl
  kept_upgrade (b ∷ kind) h = rw (e.upgrade, e.connection) refl

  kept_trailers : (te : List Bytes) (h : Headers) → with_trailers te h k ≡ h k
  unfolding to_lower
  kept_trailers te h = elim (Bool-cases (mentions (bytes "trailers") (listed_names te))) [
    | inl t ↦ rw (t, e.te) refl
    | inr f ↦ rw f refl
  ]

  kept_hop : (h : Headers) → remove_hop_by_hop h k ≡ unless_named k (h (bytes "connection")) (h k)
  kept_hop h = elim (Bool-cases (mentions k (connection_names h))) [
    | inl t ↦ rw t refl
    | inr f ↦ rw (f, e.hop) refl
  ]

  -- Such a header is sent on as the Director leaves it, unless Connection names it.
  pub proxied-unless_named :
      (client : Bytes) (incoming h : Headers)
      → proxied client incoming h k ≡ unless_named k (h (bytes "connection")) (h k)
  unfolding to_lower
  proxied-unless_named client incoming h = rw e.agent (
      kept_client client _
      ∙ kept_upgrade (upgrade_type h) _
      ∙ kept_trailers (incoming (bytes "te")) (remove_hop_by_hop h)
      ∙ kept_hop h)
