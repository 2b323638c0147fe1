-- ===== src/SenderPolicy/Tests.antt =====
-- applications/inbound_sender_policy.py at concrete inputs.
use push_it_server.Prelude.{◌≡◌, refl, ◌↔◌, String, true, List, [], ◌∷◌, In}
use push_it_server.Models.{Application}
use push_it_server.Samples.{app_one}
use push_it_server.SenderPolicy.{sender_matches, evaluate_sender_policy}
use push_it_server.SenderPolicy.Laws.{Covers, sender_matches_iff}

-- the samples are in lower case and have no blanks around them
abbrev as_is : String → String
as_is s = s

abbrev entries : List String
entries = "bob@example.org" ∷ "@*.example.com" ∷ []

abbrev listing : Application
listing = record app_one { inbound_sender_allowlist = entries }

abbrev carol : String
carol = "carol@mail.example.com"

matches_subdomain : sender_matches as_is carol entries ≡ true
unfolding sender_matches push_it_server.SenderPolicy.Text.after_at
    push_it_server.SenderPolicy.any_entry push_it_server.SenderPolicy.entry_matches
    push_it_server.SenderPolicy.Text.ends_with
matches_subdomain = refl

sender_matches_iff_example :
    (sender_matches as_is "carol@badexample.com" entries ≡ true)
    ↔ ((entry : String) × In entry entries × Covers entry "carol@badexample.com" "badexample.com")
unfolding push_it_server.SenderPolicy.Text.after_at
sender_matches_iff_example =
    sender_matches_iff as_is "carol@badexample.com" "badexample.com" entries refl refl
