-- ===== src/Install/Objects.antt =====
-- install/install.go: the objects of a cluster that the installer creates, changes and deletes, and what
-- the Kubernetes API answers.
use cilium_cli.Prelude.{
  String, Option, none, List, Bool, true, false, not, ◌&&◌, ◌==◌, Eq, string_eq, ◌≡◌, ◌≢◌, ◌↔◌,
  arith,
}

-- the namespace is empty for an object of the whole cluster
pub record Object : Type 0 where
  pub kind : String
  pub namespace : String
  pub name : String

abbrev pub same_object : Object → Object → Bool
same_object o p = (o.kind == p.kind) && (o.namespace == p.namespace) && (o.name == p.name)

pub same_object_iff : (o p : Object) → (same_object o p ≡ true) ↔ (o ≡ p)
same_object_iff o p = ground (
  arith,
  string_eq.same_iff o.kind p.kind,
  string_eq.same_iff o.namespace p.namespace,
  string_eq.same_iff o.name p.name,
)

instance abbrev pub object_eq : Eq Object
object_eq = record { same = same_object; same_iff = same_object_iff }

-- `o` is the namespace in which `p` is, whose deletion deletes `p`
abbrev pub contains : Object → Object → Bool
contains o p = (o.kind == "Namespace") && not (p.namespace == "") && (o.name == p.namespace)

pub data Reply : Type 0 where
  done not_found already_exists failed : Reply

pub record Pod : Type 0 where
  pub namespace : String
  pub name : String
  pub phase : String
  pub host_network : Bool

-- the list of the Cilium endpoints, with the namespace and the name of each
pub data Endpoints : Type 0 where
  listed : List (String × String) → Endpoints
  no_such_resource : Endpoints
  not_listed : Endpoints

-- `read` tells what the cluster holds of an object, which the other operations only see through their
-- answers. An object that is being deleted, itself or with its namespace, counts as gone, even while its
-- finalizers keep it. `unanswered` tells whether a request to create the object gets no answer, such
-- as one that times out, so that it may have been carried out all the same.
pub record Api : Type 1 where
  pub State : Type 0
  pub Content : Type 0
  pub read : State → Object → Option Content
  pub create : Object → State → State × Reply
  pub unanswered : Object → State → Bool
  pub update : Object → State → State × Reply
  pub patch : Object → State → State × Reply
  pub delete : Object → State → State × Reply
  pub get : Object → State → Reply
  pub list_pods : State → Option (List Pod)
  pub list_endpoints : State → Endpoints

-- What Kubernetes promises: an object is created only where there is none, nor one that is being
-- deleted; a creation that the API server refuses changes nothing; a request changes its object only; and
-- a deletion that is accepted marks the object as being deleted, and that of a namespace the objects in
-- it along, from which point on nothing is created there.
pub record Lawful (api : Api) : Type 0 where
  pub create_was_absent :
      (o : Object) (s : api.State) → (api.create o s).1 ≡ done → api.read s o ≡ none
  pub create_refused :
      (o : Object) (s : api.State)
      → (api.create o s).1 ≢ done
      → api.unanswered o s ≡ false
      → api.read (api.create o s).0 o ≡ api.read s o
  pub create_others :
      (o p : Object) (s : api.State)
      → (o == p) ≡ false
      → api.read (api.create o s).0 p ≡ api.read s p
  pub update_others :
      (o p : Object) (s : api.State)
      → (o == p) ≡ false
      → api.read (api.update o s).0 p ≡ api.read s p
  pub patch_others :
      (o p : Object) (s : api.State)
      → (o == p) ≡ false
      → api.read (api.patch o s).0 p ≡ api.read s p
  pub delete_done :
      (o : Object) (s : api.State)
      → (api.delete o s).1 ≡ done
      → api.read (api.delete o s).0 o ≡ none
  pub delete_absent :
      (o p : Object) (s : api.State) → api.read s p ≡ none → api.read (api.delete o s).0 p ≡ none
  pub delete_others :
      (o p : Object) (s : api.State)
      → (o == p) ≡ false
      → contains o p ≡ false
      → api.read (api.delete o s).0 p ≡ api.read s p
  pub needs_namespace :
      (o p : Object) (s : api.State)
      → contains o p ≡ true
      → api.read s o ≡ none
      → api.read s p ≡ none
