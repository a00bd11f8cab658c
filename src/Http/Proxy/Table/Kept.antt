-- ===== src/Http/Proxy/Table/Kept.antt =====
-- Code that changes the table of proxies by its critical sections alone, and leaves the database alone.
use tark.Common.{
  ℕ, Bool, true, false, Error, Result, ok, err, String, Option, none, some, inl, inr, Bool-cases,
  if◌then◌else◌, ◌≡◌, refl, ◌∙◌,
}
use tark.Store.{Database}
use tark.Http.Proxy.Table.{
  find_proxy, add_proxy, has_no_target, create_proxy, existing_or_created, proxy_for_trimmed,
  proxy_for_target, evict_proxy_target,
}
use tark.Http.Proxy.Table.Valid.{Sections, then_, add, evict}
use tark.System.Env.{Env, Url}
use tark.System.Act.{
  Act, World, Event, ReverseProxy, ◌>>=◌, ◌>>◌, pure, asks, call, request, section, branch, check,
  query,
}

pub record Sectioned {A : Type 0} (m : Act A) : Type 0 where
  pub at : (e : Env) (w : World) → Sections w.proxies → Sections (m e w).1.proxies
  pub same_db : (e : Env) (w : World) → (m e w).1.db ≡ w.db

module _ {A : Type 0} where
  pub Sectioned-pure : (a : A) → Sectioned (pure a)
  unfolding pure
  Sectioned-pure a = record { at = λ e w so_far. so_far; same_db = λ e w. refl }

  pub Sectioned-asks : (f : Env → A) → Sectioned (asks f)
  unfolding asks
  Sectioned-asks f = record { at = λ e w so_far. so_far; same_db = λ e w. refl }

  pub Sectioned-call : (f : Env → ℕ → A) → Sectioned (call f)
  unfolding call
  Sectioned-call f = record { at = λ e w so_far. so_far; same_db = λ e w. refl }

  pub Sectioned-request : (ev : Event) (f : Env → ℕ → A) → Sectioned (request ev f)
  unfolding request
  Sectioned-request ev f = record { at = λ e w so_far. so_far; same_db = λ e w. refl }

  pub Sectioned-query : (read : Database → Result A) → Sectioned (query read)
  unfolding query
  Sectioned-query read = record { at = λ e w so_far. so_far; same_db = λ e w. refl }

  pub Sectioned-if :
      (b : Bool) (m n : Act A) → Sectioned m → Sectioned n → Sectioned (if b then m else n)
  Sectioned-if true m n sm sn = sm
  Sectioned-if false m n sm sn = sn

module _ {A B : Type 0} where
  pub Sectioned-bind :
      (m : Act A) (f : A → Act B) → Sectioned m → ((a : A) → Sectioned (f a)) → Sectioned (m >>= f)
  unfolding ◌>>=◌
  Sectioned-bind m f first rest = record {
    at = λ e w so_far. let (a, w') = m e w in (rest a).at e w' (first.at e w so_far);
    same_db = λ e w. let (a, w') = m e w in (rest a).same_db e w' ∙ first.same_db e w;
  }

  pub Sectioned-then : (m : Act A) (n : Act B) → Sectioned m → Sectioned n → Sectioned (m >> n)
  unfolding ◌>>◌
  Sectioned-then m n first rest = record {
    at = λ e w so_far. rest.at e (m e w).1 (first.at e w so_far);
    same_db = λ e w. rest.same_db e (m e w).1 ∙ first.same_db e w;
  }

module _ {A B : Type 0} where
  Sectioned-branch :
      (r : Result A) (fail : Error → Act B) (k : A → Act B)
      → ((x : Error) → Sectioned (fail x))
      → ((a : A) → Sectioned (k a))
      → Sectioned (branch r fail k)
  unfolding branch
  Sectioned-branch (ok a) fail k sf sk = sk a
  Sectioned-branch (err x) fail k sf sk = sf x

  pub Sectioned-check :
      (m : Act (Result A)) (fail : Error → Act B) (k : A → Act B)
      → Sectioned m
      → ((x : Error) → Sectioned (fail x))
      → ((a : A) → Sectioned (k a))
      → Sectioned (check m fail k)
  unfolding check
  Sectioned-check m fail k sm sf sk = Sectioned-bind m _ sm λ r. Sectioned-branch r fail k sf sk

pub ruleset sectioned_rules = (
  Sectioned-pure, Sectioned-asks, Sectioned-call, Sectioned-request, Sectioned-query, Sectioned-if,
  Sectioned-bind, Sectioned-then, Sectioned-check,
)

pub evict_proxy_target-Sectioned : (target : String) → Sectioned (evict_proxy_target target)
unfolding evict_proxy_target section
evict_proxy_target-Sectioned target = record {
  at = λ e w so_far. then_ so_far (evict target w.proxies);
  same_db = λ e w. refl;
}

looking : (target : String) → Sectioned (section λ table. (find_proxy target table, table))
unfolding section
looking target = record { at = λ e w so_far. so_far; same_db = λ e w. refl }

adding :
    (target : String) (url : Url)
    → Sectioned (
        if has_no_target url
        then pure none
        else (section (add_proxy target (record { url = url })) >>= λ p. pure (some p)))
unfolding section ◌>>=◌ pure
adding target url = elim (Bool-cases (has_no_target url)) [
  | inl bad ↦ rw bad (Sectioned-pure none)
  | inr good ↦ rw good (record {
    at = λ e w so_far. then_ so_far (add target url w.proxies good);
    same_db = λ e w. refl;
  })
]

create_proxy-Sectioned : (target : String) → Sectioned (create_proxy target)
unfolding create_proxy
create_proxy-Sectioned target =
    Sectioned-check _ _ _ (Sectioned-asks _) (λ x. Sectioned-pure none) λ url. adding target url

existing_or_created-Sectioned :
    (target : String) (o : Option ReverseProxy) → Sectioned (existing_or_created target o)
unfolding existing_or_created
existing_or_created-Sectioned target (some p) = Sectioned-pure (some p)
existing_or_created-Sectioned target none = create_proxy-Sectioned target

pub proxy_for_target-Sectioned : (target : String) → Sectioned (proxy_for_target target)
unfolding proxy_for_target proxy_for_trimmed
proxy_for_target-Sectioned target = search (sectioned_rules, looking, existing_or_created-Sectioned)
