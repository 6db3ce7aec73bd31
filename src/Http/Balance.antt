-- ===== src/Http/Balance.antt =====
-- The requests that the functions of http.c make and destroy.
use cvos.Prelude.{ℕ, ◌≡◌, refl, ◌∙◌, List, ◌∷◌, Option, none, some, Bool, true, false}
use cvos.Prelude.{ℤ, neg, if◌then◌else◌}
use cvos.Http.{
  Ghttp, Method, get_page, post_page, finish, take_body, take_page, run, ask, is_minus_one,
}
use cvos.Http.{send_body, http_get, http_post, http_post2, form_type}

-- a request in front of those that there are, if there is one
abbrev pub held : Option ℕ → List ℕ → List ℕ
held none requests = requests
held (some r) requests = r ∷ requests

-- The library, where `live` lists the requests that are not destroyed, the newest first: only a new request
-- and a destroyed one, here the newest, change it.
pub record Requests {ℓ} {S : Type ℓ} (lib : Ghttp S) (live : S → List ℕ) : Type ℓ where
  pub new : (s : S) → live (lib.request_new s).1 ≡ held (lib.request_new s).0 (live s)
  pub uri : (r : Option ℕ) (u : List ℕ) (s : S) → live (lib.set_uri r u s).1 ≡ live s
  pub type : (r : Option ℕ) (m : Method) (s : S) → live (lib.set_type r m s).1 ≡ live s
  pub header : (r : Option ℕ) (t : List ℕ) (s : S) → live (lib.set_content_type r t s) ≡ live s
  pub body_set : (r : Option ℕ) (b : List ℕ) (s : S) → live (lib.set_body r b s).1 ≡ live s
  pub prepared : (r : Option ℕ) (s : S) → live (lib.prepare r s) ≡ live s
  pub processed : (r : Option ℕ) (s : S) → live (lib.process r s).1 ≡ live s
  pub destroyed :
      (r : ℕ) (rest : List ℕ) (s : S) → live s ≡ r ∷ rest → live (lib.destroy r s) ≡ rest

if_holds {ℓ κ} :
    {A : Type ℓ} (P : A → Type κ) (b : Bool) {x y : A} → P x → P y → P (if b then x else y)
if_holds P true hx hy = hx
if_holds P false hx hy = hy

module _ {ℓ} {S : Type ℓ} (lib : Ghttp S) (live : S → List ℕ) (laws : Requests lib live) where
  -- an outcome that destroyed the request and left the others
  abbrev Done : Option ℕ → List ℕ → ℤ × Option (List ℕ) × S → Type 0
  Done request n (ret, out, s) = live s ≡ n

  finish-Done :
      (request : Option ℕ) (n : List ℕ) (ret : ℤ) (out : Option (List ℕ)) (s : S)
      → live s ≡ held request n
      → Done request n (finish lib request ret out s)
  unfolding finish
  finish-Done none n ret out s h = h
  finish-Done (some r) n ret out s h = laws.destroyed r n s h

  take_body-Done :
      (request : Option ℕ) (n : List ℕ) (wanted : Bool) (too_long : ℤ) (s : S)
      → live s ≡ held request n
      → Done request n (take_body lib request wanted too_long s)
  unfolding take_body
  take_body-Done request n wanted too_long s h =
      if_holds (Done request n) _ (finish-Done request n _ _ s h) (finish-Done request n _ _ s h)

  take_page-Done :
      (request : Option ℕ) (n : List ℕ) (wanted : Bool) (too_long : ℤ) (s : S)
      → live s ≡ held request n
      → Done request n (take_page lib request wanted too_long s)
  unfolding take_page
  take_page-Done request n wanted too_long s h =
      if_holds (Done request n) _ (take_body-Done request n wanted too_long s h)
        (finish-Done request n _ _ s h)

  run-Done :
      (request : Option ℕ) (n : List ℕ) (failed : ℤ) (next : S → ℤ × Option (List ℕ) × S) (s : S)
      → ((s' : S) → live s' ≡ held request n → Done request n (next s'))
      → live s ≡ held request n
      → Done request n (run lib request failed next s)
  unfolding run
  run-Done request n failed next s after h =
      let h' = laws.processed request (lib.prepare request s) ∙ laws.prepared request s ∙ h in
      if_holds (Done request n) _ (finish-Done request n _ _ _ h') (after _ h')

  send_body-Done :
      (content_type body : List ℕ) (next : Option ℕ → S → ℤ × Option (List ℕ) × S)
      (request : Option ℕ) (n : List ℕ) (s : S)
      → ((s' : S) → live s' ≡ held request n → Done request n (next request s'))
      → live s ≡ held request n
      → Done request n (send_body lib content_type body next request s)
  unfolding send_body
  send_body-Done content_type body next request n s after h =
      let h' =
        laws.body_set request body (lib.set_content_type request content_type s)
        ∙ laws.header request content_type s
        ∙ h in
      if_holds (Done request n) _ (finish-Done request n _ _ _ h')
        (run-Done request n (neg 5) (next request) _ after h')

  ask_lem :
      (uri : List ℕ) (method : Method) (next : Option ℕ → S → ℤ × Option (List ℕ) × S) (s : S)
      → ((request : Option ℕ) (n : List ℕ) (s' : S)
          → live s' ≡ held request n
          → Done request n (next request s'))
      → live (ask lib uri method next s).2 ≡ live s
  unfolding ask
  ask_lem uri method next s after =
      let request = (lib.request_new s).0 in
      let s1 = (lib.request_new s).1 in
      let s2 = (lib.set_uri request uri s1).1 in
      let n = live s in
      let h2 : live s2 ≡ held request n = laws.uri request uri s1 ∙ laws.new s in
      let h3 = laws.type request method s2 ∙ h2 in
      let s3 = (lib.set_type request method s2).1 in
      let typed =
        if_holds (Done request n) (is_minus_one (lib.set_type request method s2).0)
          {x = finish lib request (neg 3) none s3} {y = next request s3}
          (finish-Done request n (neg 3) none s3 h3) (after request n s3 h3) in
      if_holds (Done request n) (is_minus_one (lib.set_uri request uri s1).0)
        {x = finish lib request (neg 2) none s2}
        {y = if is_minus_one (lib.set_type request method s2).0
          then finish lib request (neg 3) none s3
          else next request s3}
        (finish-Done request n (neg 2) none s2 h2) typed

  -- Whatever the library answers, where it destroys the request that it is given: `Http_Get`, `Http_Post` and
  -- `Http_Post2` leave exactly the requests that there were before; the one that a call makes is destroyed,
  -- and no other one.
  pub requests_destroyed :
      (uri body : Option (List ℕ)) (wanted : Bool) (content_type : List ℕ) (s : S)
      → (live (http_get lib uri wanted s).2 ≡ live s)
        × (live (http_post lib uri body wanted s).2 ≡ live s)
        × (live (http_post2 lib uri body wanted content_type s).2 ≡ live s)
  unfolding http_get http_post http_post2
  requests_destroyed none body wanted content_type s = (refl, refl, refl)
  requests_destroyed (some uri) none wanted content_type s = (
    ask_lem uri get_page _ s
        (λ r n s' h. run-Done r n (neg 4) _ s' (λ k. take_page-Done r n wanted (neg 5) k) h),
    refl,
    refl,
  )
  requests_destroyed (some uri) (some body) wanted content_type s = (
    ask_lem uri get_page _ s
        (λ r n s' h. run-Done r n (neg 4) _ s' (λ k. take_page-Done r n wanted (neg 5) k) h),
    ask_lem uri post_page _ s (λ r n s' h.
        send_body-Done form_type body _ r n s' (λ k. take_body-Done r n wanted (neg 6) k) h),
    ask_lem uri post_page _ s (λ r n s' h.
        send_body-Done content_type body _ r n s' (λ k. take_page-Done r n wanted (neg 6) k) h),
  )
