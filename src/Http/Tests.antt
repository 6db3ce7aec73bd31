-- ===== src/Http/Tests.antt =====
-- Runs of the HTTP client on a library whose state counts the requests that are not destroyed.
use cvos.Prelude.{
  List, ap, ◌∙◌, arith, length, ◌==◌, if◌then◌else◌, ℕ, ◌+◌, ◌-◌, ◌≡◌, refl, [], ◌∷◌, none, some, ℤ,
  pos, neg, true, false,
}
use cvos.Http.Balance.{Requests, requests_destroyed}
use cvos.Http.{
  Ghttp, http_get, http_post, http_post2, form_type, finish, take_body, take_page, run, ask,
  send_body,
}

-- a server that answers `A` with a status
abbrev answers : ℤ → Ghttp ℕ
answers code = record {
  request_new = λ n. (some 1, n + 1);
  set_uri = λ r uri n. (pos 0, n);
  set_type = λ r m n. (pos 0, n);
  set_content_type = λ r t n. n;
  set_body = λ r b n. (pos 0, n);
  prepare = λ r n. n;
  process = λ r n. (false, n);
  status_code = λ r n. code;
  body = λ r n. some (b'A' ∷ []);
  body_len = λ r n. pos 1;
  destroy = λ r n. n - 1;
}

run-http_get : http_get (answers (pos 200)) (some []) true 0 ≡ (pos 1, some (b'A' ∷ []), 0)
unfolding http_get ask run take_page take_body finish
run-http_get = refl

run-not_found : http_get (answers (pos 404)) (some []) true 0 ≡ (neg 404, none, 0)
unfolding http_get ask run take_page take_body finish
run-not_found = refl

-- `Http_Post` takes the page of a failure for an answer.
run-http_post :
    http_post (answers (pos 500)) (some []) (some []) true 0 ≡ (pos 1, some (b'A' ∷ []), 0)
unfolding http_post ask send_body run take_body finish
run-http_post = refl

-- The same server on the list of the requests that are not destroyed; a new one is the number of those
-- before it.
abbrev without : ℕ → List ℕ → List ℕ
without r [] = []
without r (q ∷ requests) = let rest = without r requests in if r == q then requests else q ∷ rest

abbrev listed : Ghttp (List ℕ)
listed = record {
  request_new = λ s. (some (length s), length s ∷ s);
  set_uri = λ r uri s. (pos 0, s);
  set_type = λ r m s. (pos 0, s);
  set_content_type = λ r t s. s;
  set_body = λ r b s. (pos 0, s);
  prepare = λ r s. s;
  process = λ r s. (false, s);
  status_code = λ r s. pos 404;
  body = λ r s. some (b'A' ∷ []);
  body_len = λ r s. pos 1;
  destroy = λ r s. without r s;
}

listed-Requests : Requests listed (λ s. s)
listed-Requests = record {
  new = λ s. refl;
  uri = λ r u s. refl;
  type = λ r m s. refl;
  header = λ r t s. refl;
  body_set = λ r b s. refl;
  prepared = λ r s. refl;
  processed = λ r s. refl;
  destroyed = λ r rest s e. ap (without r) e ∙ taken r rest;
}
  where
    taken : (r : ℕ) (rest : List ℕ) → without r (r ∷ rest) ≡ rest
    taken r rest = ground arith

requests_destroyed_example :
    ((http_get listed (some []) true (8 ∷ [])).2 ≡ 8 ∷ [])
    × ((http_post listed (some []) (some (b'A' ∷ [])) true (8 ∷ [])).2 ≡ 8 ∷ [])
    × ((http_post2 listed (some []) (some (b'A' ∷ [])) true form_type (8 ∷ [])).2 ≡ 8 ∷ [])
requests_destroyed_example =
    requests_destroyed listed (λ s. s) listed-Requests (some []) (some (b'A' ∷ [])) true form_type
      (8 ∷ [])
