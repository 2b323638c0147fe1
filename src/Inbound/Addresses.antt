-- ===== src/Inbound/Addresses.antt =====
-- applications/inbound_alias.py: which addresses are the alias of an application.
use Prim.Native.String.{String, [], ◌∷◌, len}
use push_it_server.Prelude.{
  Bool, false, not, ◌&&◌, ◌||◌, Option, none, some, str_eq, starts_with, ltb, is_some,
  if◌then◌else◌,
}
use push_it_server.SenderPolicy.Text.{after_at, ends_with}
use push_it_server.Inbound.{Python, InboundSettings}

-- `split("@", 1)`, and `none` where there is no "@"
unfoldable pub split_at : String → Option (String × String)
split_at [] = none
split_at (c ∷ s) =
    let rest = split_at s in
    if str_eq (c ∷ []) "@"
    then some ([], s)
    else elim rest [ none ↦ none | some (local_part, domain) ↦ some (c ∷ local_part, domain) ]

-- `rsplit("@", 1)[0]` of a text with an "@"
unfoldable pub before_last_at : String → String
before_last_at [] = []
before_last_at (c ∷ s) =
    let rest = before_last_at s in if is_some (after_at s) then c ∷ rest else []

module _ (py : Python) (settings : InboundSettings) where
  unfoldable pub alias_suffix : String
  alias_suffix = py.lower (py.strip settings.alias_suffix)

  unfoldable pub inbound_domain : String
  inbound_domain = py.lower (py.strip settings.domain)

  abbrev is_candidate : String → String → Bool
  is_candidate address candidate =
      is_some (after_at candidate) && str_eq (py.lower (py.strip candidate)) address

  -- `address in mailbox_addresses()`
  unfoldable pub is_mailbox_address : String → Bool
  is_mailbox_address address =
      is_candidate address settings.graph_mailbox_user_id
      || is_candidate address settings.exchange_shared_mailbox

  unfoldable pub normalize_address : String → String
  normalize_address value = py.lower (py.strip (py.parse_address value))

  unfoldable pub is_current_format : String → Bool
  is_current_format local_part =
      not (str_eq alias_suffix "")
      && ends_with (py.lower local_part) alias_suffix
      && ltb (len alias_suffix) (len (py.lower local_part))

  unfoldable pub is_legacy_format : String → Bool
  is_legacy_format local_part =
      starts_with (py.lower local_part) "app_" && ltb 4 (len (py.lower local_part))

  unfoldable pub is_alias_local_part : String → Bool
  is_alias_local_part local_part = is_current_format local_part || is_legacy_format local_part

  unfoldable pub is_inbound_alias_address : String → Bool
  is_inbound_alias_address value =
      let address = normalize_address value in
      elim (after_at address) [
        | none ↦ false
        | some domain ↦
            not (is_mailbox_address address)
            && str_eq domain inbound_domain
            && is_alias_local_part (before_last_at address)
      ]
