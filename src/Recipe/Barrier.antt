-- ===== src/Recipe/Barrier.antt =====
-- kazoo/recipe/barrier.py. A wait ends with the events that arrive before its time is over.
use kazoo.Base.{
  ℕ, zero, suc, List, [], ◌∷◌, ◌++◌, none, Bool, true, false, Exn, ok, length, if◌then◌else◌, ltb,
  list_eq, out_of_fuel,
}
use kazoo.States.{EventType, deleted}
use kazoo.Python.Text.{codes}
use kazoo.Python.Ordered.{sorted_texts, last}
use kazoo.Recipe.{
  Zookeeper, M, pure, raise, on_world, catch, retry, ◌>>=◌, ◌>>◌, self, update, is_no_node,
  is_node_exists, is_kazoo,
}

-- `wait_for_clear` was called with the event that the node was deleted.
unfoldable pub is_cleared : List EventType → Bool
is_cleared [] = false
is_cleared (deleted ∷ es) = true
is_cleared (_ ∷ es) = is_cleared es

pub record DoubleBarrier : Type 0 where
  pub path : List ℕ
  pub num_clients : ℕ
  pub identity : List ℕ
  pub participating : Bool
  pub assured_path : Bool
  pub node_name : List ℕ

abbrev pub create_path : DoubleBarrier → List ℕ
create_path b = b.path ++ (codes "/" ++ b.node_name)

abbrev pub ready_path : DoubleBarrier → List ℕ
ready_path b = b.path ++ codes "/ready"

module _ (zk : Zookeeper) where
  open zk use {World}

  -- `Barrier`, whose only state is its path.
  abbrev pub BarrierM : Type 0 → Type 0
  BarrierM A = M World (List ℕ) A

  unfoldable pub create : ℕ → BarrierM Bool
  create fuel = do path ← self; retry zk.pause fuel (on_world (λ w. zk.ensure_path w path))

  abbrev pub absent_if : {S : Type 0} → Bool → Exn → M World S Bool
  absent_if true e = pure false
  absent_if false e = raise e

  unfoldable pub remove : ℕ → BarrierM Bool
  remove fuel = do
    path ← self
    catch (retry zk.pause fuel (on_world (λ w. zk.delete w path)) >>= λ _. pure true)
        (λ e. absent_if (is_no_node e) e)

  unfoldable pub wait : List EventType → BarrierM Bool
  wait events = do
    path ← self
    there ← on_world (λ w. zk.exists w path)
    pure (if there then is_cleared events else true)

  abbrev pub DoubleM : Type 0 → Type 0
  DoubleM A = M World DoubleBarrier A

  abbrev pub pass_if : Bool → Exn → DoubleM (Unit {0})
  pass_if true e = pure tt
  pass_if false e = raise e

  abbrev pub ensure_unless : Bool → DoubleM (Unit {0})
  ensure_unless true = pure tt
  ensure_unless false = do
    b ← self
    there ← on_world (λ w. zk.ensure_path w b.path)
    update (λ b'. record b' { assured_path = true })

  -- `ready.wait()`, or the ready node for the others.
  abbrev pub wait_or_ready : Bool → DoubleM Bool
  wait_or_ready true = do set ← on_world (λ w. let r = zk.wait w none in (r.0, ok r.1)); pure true
  wait_or_ready false = do
    b ← self
    there ← on_world (λ w. zk.ensure_path w (ready_path b))
    pure true

  unfoldable pub inner_enter : DoubleM Bool
  inner_enter = do
    b ← self
    ensure_unless b.assured_path
    catch (on_world (λ w. zk.create w (create_path b) b.identity true false) >>= λ _. pure tt)
        (λ e. pass_if (is_node_exists e) e)
    there ← on_world (λ w. zk.exists w (ready_path b))
    names ← on_world (λ w. zk.get_children w b.path)
    wait_or_ready (ltb (length names) b.num_clients)

  unfoldable pub best_effort_cleanup : ℕ → DoubleM (Unit {0})
  best_effort_cleanup fuel = do
    b ← self
    catch (retry zk.pause fuel (on_world (λ w. zk.delete w (create_path b))))
        (λ e. pass_if (is_no_node e) e)

  abbrev pub left_if : ℕ → Bool → Exn → DoubleM (Unit {0})
  left_if fuel true e = do
    best_effort_cleanup fuel
    update (λ b. record b { participating = false })
  left_if fuel false e = raise e

  unfoldable pub enter : ℕ → DoubleM (Unit {0})
  enter fuel =
      catch
        (retry zk.pause fuel inner_enter >>= λ _. update (λ b. record b { participating = true }))
        (λ e. left_if fuel (is_kazoo e) e)

  -- `exists` with a watch, and the wait for it if there is a node.
  abbrev pub wait_if : DoubleM Bool → Bool → DoubleM Bool
  wait_if rest false = rest
  wait_if rest true = on_world (λ w. let r = zk.wait w none in (r.0, ok r.1)) >>= λ _. rest

  abbrev pub wait_for : DoubleM Bool → List ℕ → DoubleM Bool
  wait_for rest name = do
    b ← self
    there ← on_world (λ w. zk.exists w (b.path ++ (codes "/" ++ name)))
    wait_if rest there

  -- A round of `_inner_leave` with the children in order.
  abbrev pub round : DoubleM Bool → DoubleBarrier → List (List ℕ) → DoubleM Bool
  round rest b [] = pure true
  round rest b (first ∷ []) =
      if list_eq first b.node_name
      then (on_world (λ w. zk.delete w (create_path b)) >>= λ _. pure true)
      else (on_world (λ w. zk.delete w (create_path b)) >>= λ _. wait_for rest first)
  round rest b (first ∷ second ∷ names) =
      if list_eq first b.node_name
      then wait_for rest (last second names)
      else (on_world (λ w. zk.delete w (create_path b)) >>= λ _. wait_for rest first)

  unfoldable pub leave_loop : ℕ → DoubleM Bool
  leave_loop zero = raise out_of_fuel
  leave_loop (suc fuel) = do
    b ← self
    names ← on_world (λ w. zk.get_children w b.path)
    round (leave_loop fuel) b (sorted_texts names)

  unfoldable pub inner_leave : ℕ → DoubleM Bool
  inner_leave fuel = do
    b ← self
    catch (on_world (λ w. zk.delete w (ready_path b))) (λ e. pass_if (is_no_node e) e)
    leave_loop fuel

  unfoldable pub leave : ℕ → DoubleM (Unit {0})
  leave fuel = do
    catch (retry zk.pause fuel (inner_leave fuel) >>= λ _. pure tt)
        (λ e. if is_kazoo e then best_effort_cleanup fuel else raise e)
    update (λ b. record b { participating = false })
