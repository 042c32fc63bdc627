-- ===== src/Config/Url.antt =====
-- `normalizeServerURL` and `serverURLForPath` of config.go.
use banyan_hub_sdk.Base.{
  nat_eq, if◌then◌else◌, string_eq, ◌==◌, String, ◌<>◌, Bool, not, ◌&&◌, ◌||◌,
}
use banyan_hub_sdk.Base.Text.{trim_right, trim_space, is_empty, has_prefix}
use banyan_hub_sdk.Config.{default_server_url}
use banyan_hub_sdk.Errors.{
  invalid_server_url, sentinel_eq, Error, text, detail, Result, ok, ◌>>=◌, ◌>>◌, refuse_if, map_err,
}
use banyan_hub_sdk.Errors.Api.{or_else}
use banyan_hub_sdk.Types.{state_eq}
use Prim.Native.Char.{Char, code}

-- What `url.Parse` gives of a URL, with its text as `String` prints it.
pub record ParsedUrl : Type 0 where
  pub scheme : String
  pub host : String
  pub raw_query : String
  pub fragment : String
  pub printed : String

abbrev is_slash : Char → Bool
is_slash c = nat_eq (code c) b'/'

invalid_url : String → Error
invalid_url m = detail invalid_server_url (text m)

-- `normalizeServerURL`; the first argument is `url.Parse`.
unfoldable pub normalize_server_url : (String → Result ParsedUrl) → String → Result String
unfolding invalid_url
normalize_server_url parse_url raw = do
  parsed ←
      map_err (λ _. invalid_url "must be an absolute http(s) URL")
        (parse_url (or_else (trim_space raw) default_server_url))
  refuse_if (is_empty parsed.scheme || is_empty parsed.host)
      (invalid_url "must be an absolute http(s) URL")
  refuse_if (not (parsed.scheme == "http") && not (parsed.scheme == "https"))
      (invalid_url "unsupported scheme")
  refuse_if (not (is_empty parsed.raw_query) || not (is_empty parsed.fragment))
      (invalid_url "query and fragment are not allowed")
  ok (trim_right is_slash parsed.printed)

-- `serverURLForPath`
unfoldable pub server_url_for_path : String → String → String
server_url_for_path server_url path =
    let trimmed = trim_space path in
    if is_empty trimmed
    then server_url
    else if has_prefix trimmed "http://" || has_prefix trimmed "https://"
    then trimmed
    else if not (has_prefix trimmed "/")
    then server_url <> ("/" <> trimmed)
    else server_url <> trimmed
