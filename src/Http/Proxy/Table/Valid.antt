-- ===== src/Http/Proxy/Table/Valid.antt =====
-- The table of proxies under any order of critical sections of concurrent requests.
use tark.Common.{
  String, Option, none, some, [], ◌∷◌, true, false, Bool-cases, ◌==◌, ◌≡◌, refl, inl, inr, eq_refl,
}
use tark.Http.Proxy.Table.{find_proxy, remove_proxy, keep_or_add, add_proxy, has_no_target}
use tark.System.Env.{Url}
use tark.System.Act.{ReverseProxy, ProxyTable}

-- A key has one entry, and each entry leads to a host by some scheme.
abbrev pub IsValid : ProxyTable → Type 0
IsValid [] = Unit
IsValid ((key, p) ∷ rest) =
    (find_proxy key rest ≡ none) × (has_no_target p.url ≡ false) × IsValid rest

-- The sections of the requests: proxyForTarget's look-up leaves the table alone, its second section adds a
-- proxy that was made from a URL with a scheme and a host, and evictProxyTarget removes one.
pub data Section : ProxyTable → ProxyTable → Type 0 where
  look : (table : ProxyTable) → Section table table
  add :
      (target : String) (url : Url) (table : ProxyTable)
      → has_no_target url ≡ false
      → Section table (add_proxy target (record { url = url }) table).1
  evict : (target : String) (table : ProxyTable) → Section table (remove_proxy target table)

pub data Sections : ProxyTable → Type 0 where
  start : Sections []
  then_ : {table table' : ProxyTable} → Sections table → Section table table' → Sections table'

remove_proxy-absent :
    (key target : String) (table : ProxyTable)
    → find_proxy key table ≡ none
    → find_proxy key (remove_proxy target table) ≡ none
unfolding find_proxy remove_proxy
remove_proxy-absent key target [] h = refl
remove_proxy-absent key target ((k, p) ∷ rest) h = elim (Bool-cases (k == key)) [
  | inl same ↦ cc (rw same at h)
  | inr other ↦ elim (Bool-cases (k == target)) [
    | inl gone ↦ rw gone (remove_proxy-absent key target rest (rw other at h))
    | inr kept ↦ rw (kept, other) (remove_proxy-absent key target rest (rw other at h))
  ]
]

remove_proxy-IsValid :
    (target : String) (table : ProxyTable) → IsValid table → IsValid (remove_proxy target table)
unfolding remove_proxy
remove_proxy-IsValid target [] h = tt
remove_proxy-IsValid target ((k, p) ∷ rest) h = elim (Bool-cases (k == target)) [
  | inl gone ↦ rw gone (remove_proxy-IsValid target rest h.2)
  | inr kept ↦
      rw kept (remove_proxy-absent k target rest h.0, h.1, remove_proxy-IsValid target rest h.2)
]

keep_or_add-IsValid :
    (target : String) (url : Url) (table : ProxyTable) (o : Option ReverseProxy)
    → find_proxy target table ≡ o
    → has_no_target url ≡ false
    → IsValid table
    → IsValid (keep_or_add target (record { url = url }) table o).1
unfolding keep_or_add
keep_or_add-IsValid target url table (some p) found good h = h
keep_or_add-IsValid target url table none absent good h = (absent, good, h)

Section-IsValid :
    {table table' : ProxyTable} → Section table table' → IsValid table → IsValid table'
unfolding add_proxy
Section-IsValid (look table) h = h
Section-IsValid (add target url table good) h =
    keep_or_add-IsValid target url table (find_proxy target table) refl good h
Section-IsValid (evict target table) h = remove_proxy-IsValid target table h

-- In every order of the critical sections of any requests, from the empty table on, a key has at most one
-- proxy, and each proxy leads to a URL with a scheme and a host.
pub Sections-IsValid : {table : ProxyTable} → Sections table → IsValid table
Sections-IsValid start = tt
Sections-IsValid (then_ before last) = Section-IsValid last (Sections-IsValid before)

-- Adding is once and for all: whoever adds the target next gets the proxy that is there.
keep_or_add-find :
    (target : String) (p : ReverseProxy) (table : ProxyTable) (o : Option ReverseProxy)
    → (target == target) ≡ true
    → find_proxy target table ≡ o
    → find_proxy target (keep_or_add target p table o).1 ≡ some (keep_or_add target p table o).0
unfolding keep_or_add find_proxy
keep_or_add-find target p table (some existing) same found = found
keep_or_add-find target p table none same absent = rw same refl

add_proxy-find :
    (target : String) (p : ReverseProxy) (table : ProxyTable)
    → find_proxy target (add_proxy target p table).1 ≡ some (add_proxy target p table).0
unfolding add_proxy
add_proxy-find target p table =
    keep_or_add-find target p table (find_proxy target table) (eq_refl target) refl

keep_or_add-found :
    (target : String) (p : ReverseProxy) (table : ProxyTable) {existing : ReverseProxy}
    → find_proxy target table ≡ some existing
    → add_proxy target p table ≡ (existing, table)
unfolding add_proxy keep_or_add
keep_or_add-found target p table found = rw found refl

-- Two requests that race to make a proxy for the same target both get the first one's, and the second
-- leaves the table as it is.
pub add_proxy_once :
    (target : String) (p q : ReverseProxy) (table : ProxyTable)
    → add_proxy target q (add_proxy target p table).1
      ≡ ((add_proxy target p table).0, (add_proxy target p table).1)
add_proxy_once target p q table =
    keep_or_add-found target q (add_proxy target p table).1 (add_proxy-find target p table)
