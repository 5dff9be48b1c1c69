-- ===== src/Speaker/Paths.antt =====
-- Announcing and withdrawing the agent's own routes.
use router_ui.Base.{[], ◌∷◌, none, some, String, eq_refl, ◌≡◌, refl, ap, arith, ok}
use router_ui.Base.Dict.{Dict, lookup, insert, delete, lookup-insert}
use router_ui.Net.{IpNet, Texts}
use router_ui.Speaker.{
  Speaker, add_path, delete_path, announced, announce_cidr, announce_route, withdraw_uuid,
  withdraw_key, withdraw_route,
}

delete-insert {ℓ} :
    {V : Type ℓ} (k : String) (v : V) (m : Dict V) → lookup k m ≡ none → delete k (insert k v m) ≡ m
unfolding delete insert lookup
delete-insert k v [] fresh = ground (arith, eq_refl k)
delete-insert k v ((j, w) ∷ m) fresh = ground (arith, delete-insert k v m)

-- For a prefix that parses and is not in the table, with GoBGP accepting both calls: announcing
-- succeeds, withdrawing then asks GoBGP to delete the very path that it had made, and the speaker
-- is as it was before.
pub withdraw-announce :
    (t : Texts) (prefix next_hop uuid : String) (cidr : IpNet) (s : Speaker)
    → t.parse_cidr prefix ≡ some cidr
    → lookup (t.cidr_string cidr) s.path_uuids ≡ none
    → let up = announce_route t (ok uuid) prefix next_hop s in
      let gone = withdraw_route t (ok tt) prefix up.speaker in
      (up.result ≡ ok tt)
      × (up.calls ≡ add_path (announced s.cfg cidr next_hop) ∷ [])
      × (gone.result ≡ ok tt)
      × (gone.calls ≡ delete_path uuid ∷ [])
      × (gone.speaker ≡ s)
unfolding announce_route announce_cidr withdraw_route withdraw_key withdraw_uuid
withdraw-announce t prefix next_hop uuid cidr s parsed fresh =
    let key : String = t.cidr_string cidr in
    let found : lookup key (insert key uuid s.path_uuids) ≡ some uuid =
      ground (arith, lookup-insert key key uuid s.path_uuids, eq_refl key) in
    rw (parsed, announce_route)
      (rw (parsed, withdraw_route)
        (rw (found, withdraw_key)
          (
            refl,
            refl,
            refl,
            refl,
            ap (λ m. record s { path_uuids = m }) (delete-insert key uuid s.path_uuids fresh),
          )))
