-- ===== src/Http.antt =====
-- http.c: the calls of libghttp that get or post a page. The library is a parameter, on a state that is not
-- looked into; NULL is `none`, and a line that prints is left out.
pub mod Balance
mod Tests
use cvos.Prelude.{ℕ, ◌+◌, List, [], ◌∷◌, Option, none, some, Bool, true, false, not}
use cvos.Prelude.{ℤ, pos, neg, is_neg, is_zero, ◌-ℤ◌, if◌then◌else◌}

-- `ghttp_type_get` and `ghttp_type_post`
pub data Method : Type 0 where
  get_page : Method
  post_page : Method

-- `ghttp_set_uri` and the like give -1 on a failure; `process` gives whether the status is `ghttp_error`,
-- and `body` the string at the body.
pub record Ghttp {ℓ} (S : Type ℓ) : Type ℓ where
  pub request_new : S → Option ℕ × S
  pub set_uri : Option ℕ → List ℕ → S → ℤ × S
  pub set_type : Option ℕ → Method → S → ℤ × S
  pub set_content_type : Option ℕ → List ℕ → S → S
  pub set_body : Option ℕ → List ℕ → S → ℤ × S
  pub prepare : Option ℕ → S → S
  pub process : Option ℕ → S → Bool × S
  pub status_code : Option ℕ → S → ℤ
  pub body : Option ℕ → S → Option (List ℕ)
  pub body_len : Option ℕ → S → ℤ
  pub destroy : ℕ → S → S

abbrev pub is_minus_one : ℤ → Bool
is_minus_one n = is_zero (n -ℤ neg 1)

-- `application/x-www-form-urlencoded`
abbrev pub form_type : List ℕ
form_type =
    97 ∷ 112 ∷ 112 ∷ 108 ∷ 105 ∷ 99 ∷ 97 ∷ 116 ∷ 105 ∷ 111 ∷ 110 ∷ 47 ∷ 120 ∷ 45 ∷ 119 ∷ 119 ∷ 119
    ∷ 45 ∷ 102 ∷ 111 ∷ 114 ∷ 109 ∷ 45 ∷ 117 ∷ 114 ∷ 108 ∷ 101 ∷ 110 ∷ 99 ∷ 111 ∷ 100 ∷ 101 ∷ 100
    ∷ []

-- `HTTP_MAX_PKT_LEN`
abbrev pub max_pkt_len : ℕ
max_pkt_len = 2000

module _ {ℓ} {S : Type ℓ} (lib : Ghttp S) where
  -- The label `End`, with the result and what is copied to `outJson`, if anything is
  unfoldable pub finish : Option ℕ → ℤ → Option (List ℕ) → S → ℤ × Option (List ℕ) × S
  finish request ret out s = elim request [
    | none ↦ (ret, out, s)
    | some r ↦ (ret, out, lib.destroy r s)
  ]

  -- the body, where it is not too long for a page; `too_long` is the result otherwise
  unfoldable pub take_body : Option ℕ → Bool → ℤ → S → ℤ × Option (List ℕ) × S
  take_body request wanted too_long s =
      let len = lib.body_len request s in
      if is_neg (pos max_pkt_len -ℤ len)
      then finish request too_long none s
      else finish request len (if wanted then lib.body request s else none) s

  -- the page once its status is 200
  unfoldable pub take_page : Option ℕ → Bool → ℤ → S → ℤ × Option (List ℕ) × S
  take_page request wanted too_long s =
      let code = lib.status_code request s in
      if is_zero (code -ℤ pos 200)
      then take_body request wanted too_long s
      else finish request (pos 0 -ℤ code) none s

  -- `ghttp_prepare` and `ghttp_process`, with the result where that fails and what is done where it does not
  unfoldable pub run : Option ℕ → ℤ → (S → ℤ × Option (List ℕ) × S) → S → ℤ × Option (List ℕ) × S
  run request failed next s =
      let (error, s') = lib.process request (lib.prepare request s) in
      if error then finish request failed none s' else next s'

  -- the method of a request with its address, up to where the body is set
  unfoldable pub ask :
      List ℕ → Method → (Option ℕ → S → ℤ × Option (List ℕ) × S) → S → ℤ × Option (List ℕ) × S
  ask uri method next s =
      let (request, s1) = lib.request_new s in
      let (set, s2) = lib.set_uri request uri s1 in
      let (typed, s3) = lib.set_type request method s2 in
      if is_minus_one set
      then finish request (neg 2) none s2
      else if is_minus_one typed
      then finish request (neg 3) none s3
      else next request s3

  -- `Http_Get`; `wanted` is whether `outJson` is not NULL.
  unfoldable pub http_get : Option (List ℕ) → Bool → S → ℤ × Option (List ℕ) × S
  http_get none wanted s = (neg 1, none, s)
  http_get (some uri) wanted s =
      ask uri get_page (λ request. run request (neg 4) (take_page request wanted (neg 5))) s

  -- the header and the body of a post
  unfoldable pub send_body :
      List ℕ
      → List ℕ
      → (Option ℕ → S → ℤ × Option (List ℕ) × S)
      → Option ℕ
      → S
      → ℤ × Option (List ℕ) × S
  send_body content_type body next request s =
      let (set, s') = lib.set_body request body (lib.set_content_type request content_type s) in
      if is_minus_one set
      then finish request (neg 4) none s'
      else run request (neg 5) (next request) s'

  -- `Http_Post`, which takes a page of any status
  unfoldable pub http_post : Option (List ℕ) → Option (List ℕ) → Bool → S → ℤ × Option (List ℕ) × S
  http_post none body wanted s = (neg 1, none, s)
  http_post (some uri) none wanted s = (neg 1, none, s)
  http_post (some uri) (some body) wanted s =
      ask uri post_page (send_body form_type body (λ request. take_body request wanted (neg 6))) s

  -- `Http_Post2`, with the content type given
  unfoldable pub http_post2 :
      Option (List ℕ) → Option (List ℕ) → Bool → List ℕ → S → ℤ × Option (List ℕ) × S
  http_post2 none body wanted content_type s = (neg 1, none, s)
  http_post2 (some uri) none wanted content_type s = (neg 1, none, s)
  http_post2 (some uri) (some body) wanted content_type s =
      ask uri post_page (send_body content_type body (λ request. take_page request wanted (neg 6)))
        s
