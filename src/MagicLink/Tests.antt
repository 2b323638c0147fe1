-- ===== src/MagicLink/Tests.antt =====
-- accounts/magic_link.py at concrete inputs.
use Prim.Native.String.{◌++◌}
use push_it_server.Prelude.{ℕ, ◌≤◌, ◌≡◌, refl, String, true, none, List, [], ◌∷◌, arith}
use push_it_server.MagicLink.{MagicLinkToken, Links, request_magic_link}
use push_it_server.MagicLink.Laws.{consume_all, consume_all_once}

abbrev marked : String → String
marked s = "#" ++ s

abbrev link : MagicLinkToken
link = record {
  id = 4;
  user = 1;
  token_hash = "#raw";
  created_at = 0;
  expires_at = 900000000;
  used_at = none;
}

abbrev links : Links
links = record {
  accounts =
      record { id = 1; email = "alice@example.com"; is_active = true; email_confirmed = true } ∷ [];
  tokens = link ∷ [];
  next_token = 5;
}

-- the link is sent as the request would have made it
links_requested :
    request_magic_link marked 0 15 "alice@example.com" "raw"
      (record links { tokens = []; next_token = 4 })
    ≡ links
unfolding request_magic_link
links_requested = refl

abbrev replays : List (ℕ × MagicLinkToken)
replays = (10, link) ∷ (11, link) ∷ (12, link) ∷ []

consume_all_once_example : (consume_all replays links).0 ≤ 1
consume_all_once_example = consume_all_once 4 replays links (refl, (refl, (refl, tt))) (omega arith)
