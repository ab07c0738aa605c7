-- ===== src/Coordinator/GithubAuth.antt =====
-- githubOAuthClient of coordinator/githubauth.go. The HTTP client and the JSON decoders are
-- parameters: `none` is an error of the request or of the decoder, and only the first 8192 bytes
-- of a body are decoded.
use sentry_load.Prelude.{
  ℕ, not, ◌||◌, [], ◌∷◌, ◌++◌, Option, none, some, take, Text, text_eq, bytes, nat_eq, ◌==◌,
  if◌then◌else◌, ℤ, pos, int_eq, Map,
}

pub record Client : Type 0 where
  pub client_id : Text
  pub client_secret : Text
  pub redirect_url : Text

-- method, URL, body, and headers
pub record Request : Type 0 where
  pub method : Text
  pub url : Text
  pub content : Text
  pub headers : Map Text Text

pub record Reply : Type 0 where
  pub status_code : ℕ
  pub content : Text

-- access_token, error; the fields that are missing are empty
pub record TokenBody : Type 0 where
  pub access_token : Text
  pub error : Text

pub record UserBody : Type 0 where
  pub id : ℤ
  pub login : Text

-- `encode` is url.Values.Encode.
pub record Web : Type 0 where
  pub encode : Map Text Text → Text
  pub do_request : Request → Option Reply
  pub decode_token : Text → Option TokenBody
  pub decode_user : Text → Option UserBody

module _ (w : Web) where
  unfoldable pub authorize_url : Client → Text → Text
  authorize_url c state =
      bytes "https://github.com/login/oauth/authorize?"
      ++ w.encode (
          (bytes "client_id", c.client_id)
          ∷ (bytes "redirect_uri", c.redirect_url)
          ∷ (bytes "state", state)
          ∷ [])

  token_request : Client → Text → Request
  token_request c code = record {
    method = bytes "POST";
    url = bytes "https://github.com/login/oauth/access_token";
    content = w.encode (
        (bytes "client_id", c.client_id)
        ∷ (bytes "client_secret", c.client_secret)
        ∷ (bytes "code", code)
        ∷ (bytes "redirect_uri", c.redirect_url)
        ∷ []);
    headers =
        (bytes "Content-Type", bytes "application/x-www-form-urlencoded")
        ∷ (bytes "Accept", bytes "application/json")
        ∷ [];
  }

  -- The status of the answer is not looked at.
  unfoldable pub exchange : Client → Text → Option Text
  unfolding token_request
  exchange c code = elim (w.do_request (token_request c code)) [
    | none ↦ none
    | some reply ↦ elim (w.decode_token (take 8192 reply.content)) [
      | none ↦ none
      | some body ↦
          if not (body.error == [])
          then none
          else if body.access_token == []
          then none
          else some body.access_token
    ]
  ]

  user_request : Text → Request
  user_request access_token = record {
    method = bytes "GET";
    url = bytes "https://api.github.com/user";
    content = [];
    headers =
        (bytes "Authorization", bytes "Bearer " ++ access_token)
        ∷ (bytes "Accept", bytes "application/vnd.github+json")
        ∷ [];
  }

  unfoldable pub fetch_user : Text → Option (ℤ × Text)
  unfolding user_request
  fetch_user access_token = elim (w.do_request (user_request access_token)) [
    | none ↦ none
    | some reply ↦
        if not (reply.status_code == 200)
        then none
        else elim (w.decode_user (take 8192 reply.content)) [
          | none ↦ none
          | some body ↦
              if body.id == pos 0 || body.login == [] then none else some (body.id, body.login)
        ]
  ]
