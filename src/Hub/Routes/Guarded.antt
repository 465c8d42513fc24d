-- ===== src/Hub/Routes/Guarded.antt =====
-- The hub does nothing for a request that does not present its token.
use zeno_plugin.Prelude.{
  ◌≡◌, refl, ◌⊎◌, inl, inr, ◌≢◌, Bool, true, false, not, Option, none, some, List, [], ◌∷◌, ◌++◌,
  arith, if◌then◌else◌, length, Bool-cases,
}
use zeno_plugin.Prelude.Text.{Text, codes, text_eq}
use zeno_plugin.Prelude.Result.{Result}
use zeno_plugin.Manifest.Value.{Json, null, bool, int, float, str, arr, obj, Fields}
use zeno_plugin.Hub.{
  Services, Call, raise_windows, shut_down, Response, Answer, PublishRequest, coerce_load, publish,
  publish_path, load, ui_call,
}
use zeno_plugin.Hub.Token.{consteq, consteq_iff}
use zeno_plugin.Hub.Routes.{
  Request, before_query, reject, send, authorised, do_post, dispatch, route, read_json, ui_route,
  publish_route, send_or_drop, publish_request, load_route, palette_call, navigator_call,
  shutdown_route,
}

not_authorised :
    (hub : Services) (req : Request)
    → (req.presented ≢ hub.token) ⊎ (req.presented ≡ [])
    → authorised hub req ≡ false
unfolding authorised
not_authorised hub req (inl wrong) = elim (Bool-cases (consteq req.presented hub.token)) [
  | inl equal ↦ absurd (wrong ((consteq_iff req.presented hub.token).0 equal))
  | inr differs ↦ ground (arith, differs)
]
not_authorised hub req (inr none_there) = rw none_there refl

-- A POST without the hub's token, or with an empty one, is answered with status 401, whatever its
-- path and body are, and no call is made.
pub do_post_unauthorised :
    (hub : Services) (req : Request)
    → (req.presented ≢ hub.token) ⊎ (req.presented ≡ [])
    → do_post hub req ≡ reject 401 (codes "invalid or missing token")
unfolding do_post
do_post_unauthorised hub req h = rw (not_authorised hub req h) refl

-- What an answer may be: at most one call, and a call only in a response of status 200.
pub record Proper (a : Answer) : Type 0 where
  pub calls : (a.1 ≡ []) ⊎ ((length a.1 ≡ 1) × ((r : Response) × (a.0 ≡ some r) × (r.status ≡ 200)))

silent : {a : Answer} → a.1 ≡ [] → Proper a
silent e = record { calls = inl e }

Proper-if : (b : Bool) {m n : Answer} → Proper m → Proper n → Proper (if b then m else n)
Proper-if true p q = p
Proper-if false p q = q

Proper-send : (p : Json × List Call) → (p.1 ≡ []) ⊎ (length p.1 ≡ 1) → Proper (send p)
Proper-send (payload, made) (inl none_made) = silent none_made
Proper-send (payload, made) (inr one) = record { calls = inr (one, (_, refl, refl)) }

publish_path-calls :
    (hub : Services) (req : PublishRequest) (path : Text)
    → ((publish_path hub req path).1 ≡ []) ⊎ (length (publish_path hub req path).1 ≡ 1)
unfolding publish_path
publish_path-calls hub req path = elim (Bool-cases (hub.is_file path)) [
  | inl there ↦ inr (rw there refl)
  | inr missing ↦ inl (rw missing refl)
]

publish_route-Proper : (hub : Services) (o : Option PublishRequest) → Proper (publish_route hub o)
unfolding publish
publish_route-Proper hub none = silent refl
publish_route-Proper hub (some req) = expanded (hub.expanduser req.path)
  where
    expanded :
        (o : Option Text)
        → Proper (
            send_or_drop (elim o as (λ _. Option (Json × List Call)) [
              | none ↦ none
              | some path ↦ some (publish_path hub req path)
            ]))
    expanded none = silent refl
    expanded (some path) = Proper-send (publish_path hub req path) (publish_path-calls hub req path)

load_route-Proper : (hub : Services) (o : Option Fields) → Proper (load_route hub o)
unfolding load
load_route-Proper hub none = silent refl
load_route-Proper hub (some body) = Proper-send (load hub (coerce_load hub body)) (inr refl)

ui_route-Proper : (hub : Services) (o : Option Call) → Proper (ui_route hub o)
unfolding ui_call
ui_route-Proper hub o = served hub.ui o
  where
    served :
        (u : Option (Call → Result Text Bool)) (o : Option Call)
        → Proper (elim u as (λ _. Answer) [
          | none ↦ reject 503 (codes "UI not available in this hub process")
          | some ui ↦ elim o as (λ _. Answer) [
            | none ↦ (none, [])
            | some c ↦ send (ui_call hub ui c)
          ]
        ])
    served none o = silent refl
    served (some ui) none = silent refl
    served (some ui) (some c) = Proper-send (ui_call hub ui c) (inr refl)

shutdown_route-Proper : (hub : Services) → Proper (shutdown_route hub)
shutdown_route-Proper hub = Proper-send _ (hooked hub.has_shutdown)
  where
    hooked :
        (b : Bool)
        → ((if b then shut_down ∷ [] else []) ≡ [])
          ⊎ (length (if b then shut_down ∷ [] else []) ≡ 1)
    hooked true = inr refl
    hooked false = inl refl

route-Proper : (hub : Services) (path : Text) (body : Option Fields) → Proper (route hub path body)
unfolding route
route-Proper hub path body =
    Proper-if (text_eq path (codes "/v1/publish"))
      (publish_route-Proper hub (publish_request hub body))
      (Proper-if (text_eq path (codes "/v1/load")) (load_route-Proper hub body) (
        Proper-if (text_eq path (codes "/v1/ui/palette"))
          (ui_route-Proper hub (palette_call hub body))
          (Proper-if (text_eq path (codes "/v1/ui/navigator"))
            (ui_route-Proper hub (navigator_call hub body))
            (Proper-if (text_eq path (codes "/v1/ui/raise"))
              (ui_route-Proper hub (some raise_windows))
              (Proper-if (text_eq path (codes "/v1/shutdown")) (shutdown_route-Proper hub)
                (silent {a = reject 404 (codes "no route " ++ path)} refl))))))

dispatch-Proper : (hub : Services) (path : Text) (o : Option Json) → Proper (dispatch hub path o)
dispatch-Proper hub path none = silent refl
dispatch-Proper hub path (some null) = silent refl
dispatch-Proper hub path (some (bool b)) = route-Proper hub path none
dispatch-Proper hub path (some (int i)) = route-Proper hub path none
dispatch-Proper hub path (some (float f)) = route-Proper hub path none
dispatch-Proper hub path (some (str s)) = route-Proper hub path none
dispatch-Proper hub path (some (arr xs)) = route-Proper hub path none
dispatch-Proper hub path (some (obj fs)) = route-Proper hub path (some fs)

-- A POST is answered with at most one call to the rest of the program, and a call is made only
-- beside a response of status 200.
pub do_post-Proper : (hub : Services) (req : Request) → Proper (do_post hub req)
unfolding do_post
do_post-Proper hub req =
    Proper-if (not (authorised hub req))
      (silent {a = reject 401 (codes "invalid or missing token")} refl)
      (dispatch-Proper hub (before_query req.path) (read_json hub req))
