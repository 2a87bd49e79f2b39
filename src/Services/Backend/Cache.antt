-- ===== src/Services/Backend/Cache.antt =====
-- The documented effect of each Redis command on the keys.
use micromdm.Base.{
  String, ℕ, ◌==◌, Option, none, some, List, [], ◌∷◌, ◌++◌, Action, Result, ok, err, Error, resume,
  if◌then◌else◌, length,
}
use micromdm.Services.Redis.{Redis}
use micromdm.Services.Backend.State.{Entry, str, list, Backend, put}

abbrev pub wrong_type : Error
wrong_type = Error.fault "WRONGTYPE Operation against a key holding the wrong kind of value"

-- The elements under a key: a missing key is an empty list.
abbrev pub elements : Option Entry → Result (List String)
elements none = ok []
elements (some (list xs)) = ok xs
elements (some (str v)) = err wrong_type

abbrev pub content : Option Entry → Result String
content none = err Error.nil_reply
content (some (str v)) = ok v
content (some (list xs)) = err wrong_type

-- A list that becomes empty is removed.
abbrev pub write_list : String → List String → Backend → Backend
write_list k [] b = record b { entry = put k none b.entry; ttl = put k none b.ttl }
write_list k (x ∷ xs) b = record b { entry = put k (some (list (x ∷ xs))) b.entry }

abbrev pub without : String → List String → List String
without v [] = []
without v (x ∷ xs) = if x == v then without v xs else x ∷ without v xs

abbrev on_elements : {A : Type 0} → String → (List String → Action Backend A) → Action Backend A
on_elements k f b = resume (elements (b.entry k)) f b

abbrev pop_first : String → List String → Action Backend String
pop_first k [] b = (err Error.nil_reply, b)
pop_first k (x ∷ xs) b = (ok x, write_list k xs b)

abbrev expire_after : String → ℕ → Option Entry → Backend → Backend
expire_after k n none b = b
expire_after k n (some _) b = record b { ttl = put k (some n) b.ttl }

abbrev pub cache : Redis Backend
cache = record {
  set = λ k v b. (ok tt, record b { entry = put k (some (str v)) b.entry; ttl = put k none b.ttl });
  get = λ k b. (content (b.entry k), b);
  lpush = λ k v. on_elements k (λ xs b. (ok tt, write_list k (v ∷ xs) b));
  rpush = λ k v. on_elements k (λ xs b. (ok tt, write_list k (xs ++ (v ∷ [])) b));
  lpop = λ k. on_elements k (pop_first k);
  lrem = λ k v. on_elements k (λ xs b. (ok tt, write_list k (without v xs) b));
  llen = λ k. on_elements k (λ xs b. (ok (length xs), b));
  lrange = λ k. on_elements k (λ xs b. (ok xs, b));
  expire = λ k n b. (ok tt, expire_after k n (b.entry k) b);
}
