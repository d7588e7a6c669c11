-- ===== src/Clients/Origins.antt =====
-- Which external origins a client lets in.
use rauthy.Base.{
  ◌≡◌, refl, inl, inr, Bool, true, some, List, [], ◌∷◌, arith, Str, any, split, split_once_str,
  ◌&&◌, ◌||◌, codes, str_eq, vec_contains, Option-cases,
}
use rauthy.ErrorResponse.{ok, >>=-eq-ok, ok_or, ensure, bad_request}
use rauthy.Clients.{
  Client, ListenScheme, https, origin_matches, scheme_fits, is_origin_external, validate_origin,
}

any-origin_matches :
    (origin : Str) (aos : List Str)
    → any (origin_matches https origin) aos ≡ vec_contains aos origin
unfolding vec_contains
any-origin_matches origin [] = refl
any-origin_matches origin (ao ∷ aos) = ground (arith, any-origin_matches origin aos)

is_origin_external_same :
    (proxy_mode : Bool) (origin pub_url : Str) (listen : ListenScheme) (ext : Bool) (o : Str)
    → is_origin_external proxy_mode (some origin) listen pub_url ≡ ok (ext, o)
    → o ≡ origin
unfolding is_origin_external
is_origin_external_same proxy_mode origin pub_url listen ext o h =
    let ((scheme, url), parsed, h') =
      >>=-eq-ok (ok_or (split_once_str (codes "://") origin) bad_request) _ h in
    let (u, fits, h'') =
      >>=-eq-ok
        (ensure (proxy_mode && str_eq scheme (codes "https") || scheme_fits listen scheme)
          bad_request)
        _ h' in
    ground arith

-- Where the server listens with TLS only, an external origin is let in, and then allowed by the
-- answer's header, only if the client lists exactly that origin.
pub validate_origin_sound :
    (proxy_mode : Bool) (c : Client) (origin pub_url o : Str)
    → validate_origin proxy_mode c (some origin) https pub_url ≡ ok (some o)
    → (o ≡ origin)
      × ((allowed : Str) × (c.allowed_origins ≡ some allowed)
          × (vec_contains (split b',' allowed) origin ≡ true))
unfolding validate_origin
validate_origin_sound proxy_mode c origin pub_url o h =
    let ((ext, o'), external, h') =
      >>=-eq-ok (is_origin_external proxy_mode (some origin) https pub_url) _ h in
    let same = is_origin_external_same proxy_mode origin pub_url https ext o' external in
    elim (Option-cases c.allowed_origins) [
      | inl nothing ↦ absurd (ground arith)
      | inr (allowed, listed) ↦
          let matches : any (origin_matches https o') (split b',' allowed) ≡ true = ground arith in
          (
            ground arith,
            (allowed, listed, ground (arith, any-origin_matches o' (split b',' allowed))),
          )
    ]
