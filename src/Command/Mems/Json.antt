-- ===== src/Command/Mems/Json.antt =====
-- The JSON text of `memsroute_get`, and when it fits into the buffer.
use hispec_tib.Prelude.{
  ◌≤◌, ◌≡◌, refl, ap, sym, ◌∙◌, inl, inr, Bool, true, false, List, [], ◌∷◌, ◌++◌, append_assoc,
  Option, some, none, arith, length, length-append, leb, if◌then◌else◌, Bool-cases,
}
use hispec_tib.CString.{CString, text}
use hispec_tib.Mems.{RouteKey}
use hispec_tib.Mems.Routes.{IsBounded}
use hispec_tib.Mems.Active.{active_keys, active_routes_complete}
use hispec_tib.Board.{Env}
use hispec_tib.Devices.{Tib}
use hispec_tib.Command.Types.{Command, resp_ok, resp_error}
use hispec_tib.Command.Reply.{msg_builder}
use hispec_tib.Command.Mems.{memsroute_get, put, put_keys, key_text, routes_json, ◌>>=◌}

-- The entries with commas between them; `first` says that none stands before.
unfoldable pub entries : Bool → List RouteKey → CString
entries first [] = []
entries true (k ∷ ks) = key_text k ++ entries false ks
entries false (k ∷ ks) = text "," ++ (key_text k ++ entries false ks)

-- The object with all the keys.
abbrev pub routes_text : List RouteKey → CString
routes_text keys = text "{\"active_routes\":{" ++ (entries true keys ++ text "}}")

-- A text of at most 255 bytes, or nothing.
abbrev fitting : CString → Option CString
fitting s = if leb (length s) 255 then some s else none

put_lem : (buf s : CString) → length buf ≤ 255 → put buf s ≡ fitting (buf ++ s)
unfolding put
put_lem buf s h = ground (arith, length-append buf s)

-- What follows a text that is already too long cannot make it fit.
fitting_more : (a b : CString) → fitting a ≡ none → fitting (a ++ b) ≡ none
fitting_more a b h = ground (arith, length-append a b)

-- Writing one text after another is writing both.
put_then :
    (buf s : CString) (f : CString → Option CString) (t : CString)
    → length buf ≤ 255
    → ((b : CString) → length b ≤ 255 → f b ≡ fitting (b ++ t))
    → (put buf s >>= f) ≡ fitting (buf ++ (s ++ t))
put_then buf s f t h g = elim (Bool-cases (leb (length (buf ++ s)) 255)) [
  | inl fits ↦
      rw (put_lem buf s h, fits) (g (buf ++ s) (ground arith) ∙ ap fitting (append_assoc buf s t))
  | inr over ↦
      rw (put_lem buf s h, over)
        (sym (ap fitting (sym (append_assoc buf s t)) ∙ fitting_more (buf ++ s) t (rw over)))
]

>>=-assoc :
    (m : Option CString) (f g : CString → Option CString)
    → ((m >>= f) >>= g) ≡ (m >>= λ a. f a >>= g)
>>=-assoc none f g = refl
>>=-assoc (some a) f g = refl

put_key_lem :
    (k : RouteKey) (ks : List RouteKey) (t : CString) (buf : CString)
    → length buf ≤ 255
    → ((b : CString)
        → length b ≤ 255
        → (put_keys false ks b >>= λ c. put c t) ≡ fitting (b ++ (entries false ks ++ t)))
    → (put buf (key_text k) >>= λ b. put_keys false ks b >>= λ c. put c t)
      ≡ fitting (buf ++ ((key_text k ++ entries false ks) ++ t))
put_key_lem k ks t buf h rest =
    put_then buf (key_text k) (λ b. put_keys false ks b >>= λ c. put c t) (entries false ks ++ t) h
      rest
    ∙ ap (λ x. fitting (buf ++ x)) (sym (append_assoc (key_text k) (entries false ks) t))

put_keys_lem :
    (first : Bool) (ks : List RouteKey) (t : CString) (buf : CString)
    → length buf ≤ 255
    → (put_keys first ks buf >>= λ b. put b t) ≡ fitting (buf ++ (entries first ks ++ t))
unfolding put_keys entries
put_keys_lem true [] t buf h = put_lem buf t h
put_keys_lem false [] t buf h = put_lem buf t h
put_keys_lem true (k ∷ ks) t buf h =
    >>=-assoc (put buf (key_text k)) (put_keys false ks) (λ b. put b t)
    ∙ put_key_lem k ks t buf h (λ b hb. put_keys_lem false ks t b hb)
put_keys_lem false (k ∷ ks) t buf h =
    >>=-assoc (put buf (text ",")) (λ b. put b (key_text k) >>= put_keys false ks) (λ b. put b t)
    ∙ put_then buf (text ",") (λ b. (put b (key_text k) >>= put_keys false ks) >>= λ c. put c t)
        ((key_text k ++ entries false ks) ++ t) h
        (λ b hb.
          >>=-assoc (put b (key_text k)) (put_keys false ks) (λ c. put c t)
          ∙ put_key_lem k ks t b hb (λ c hc. put_keys_lem false ks t c hc))

-- `memsroute_get` writes the whole object if it takes at most 255 bytes, and reports an overflow
-- otherwise.
pub routes_json_lem :
    (keys : List RouteKey)
    → routes_json keys
      ≡ (if leb (length (routes_text keys)) 255 then some (routes_text keys) else none)
unfolding routes_json
routes_json_lem keys =
    put_keys_lem true keys (text "}}") (text "{\"active_routes\":{") (omega arith)

pub memsroute_get_lem :
    {D : Type 0} (env : Env D) (cmd : Command) (tib : Tib D)
    → IsBounded tib.router
    → let keys = active_keys tib.router tib.mems_switches tib.router.routes in
      memsroute_get env cmd tib ≡ (
        if leb (length (routes_text keys)) 255
            then msg_builder (some cmd) resp_ok (routes_text keys)
            else msg_builder (some cmd) resp_error (text "{\"error\":\"overflow building JSON\"}"),
        tib,
      )
unfolding memsroute_get
memsroute_get_lem env cmd tib b = ground (
  arith,
  active_routes_complete tib.router tib.mems_switches b,
  routes_json_lem (active_keys tib.router tib.mems_switches tib.router.routes),
)
