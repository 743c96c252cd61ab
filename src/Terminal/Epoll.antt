-- ===== src/Terminal/Epoll.antt =====
-- study-linux-kernel/io-model/terminal-io-epoll.c: the child reads the terminal, the parent waits for
-- the pipe by epoll and writes what it reads.
pub mod Typing
pub mod Passing
pub mod Relaying
use study_linux_kernel.Base.{ℕ, zero, suc, List, [], ◌∷◌, Option, none, some, take, utf8}
use study_linux_kernel.Sys.Calls.{
  Text, Reply, pipe, fork, read, write, close, epoll_create, epoll_add, epoll_wait,
}
use study_linux_kernel.Sys.Monad.{M, pure, ◌>>=◌, ◌>>◌, exit, sys, number, input, run, say}
use study_linux_kernel.Sys.Loops.{Next, again, finish, loop}
use study_linux_kernel.SocketPair.{pair_at}

-- The child's loop; `src` and `dst` are `pfd[0]` and `pfd[1]`.
unfoldable pub after_write : Option ℕ → M (Next (Unit {0}) (Unit {0}))
after_write none = pure (finish tt)
after_write (some _) = do say ">>>子进程将读取到的字符写入管道成功\n" []; pure (again tt)

unfoldable pub on_typed : ℕ → Option Text → M (Next (Unit {0}) (Unit {0}))
on_typed dst none = pure (finish tt)
on_typed dst (some bytes) = number (write dst bytes) >>= after_write

unfoldable pub type_round : ℕ → Unit {0} → M (Next (Unit {0}) (Unit {0}))
type_round dst _ = do
  say ">>>子进程开始从终端读入字符\n" []
  typed ← input 1024 (read 0 1024)
  on_typed dst typed

unfoldable pub leave_child : ℕ → M (Unit {0})
leave_child dst = do say ">>>子进程关闭管道写入端并退出进程\n" []; run (close dst); exit 0

unfoldable pub type_all : ℕ → ℕ → Option ℕ → M (Unit {0})
type_all fuel dst none = exit 1
type_all fuel dst (some _) = do
  say ">>>子进程关闭管道读取端\n" []
  loop fuel (type_round dst) tt
  leave_child dst

unfoldable pub child : ℕ → ℕ → ℕ → M (Unit {0})
child fuel src dst = do say ">>>子进程创建成功\n" []; number (close src) >>= type_all fuel dst

-- A `read` from a descriptor whose events are `EPOLLIN` alone; the result of `write` is not looked at.
unfoldable pub on_bytes : Option Text → M (Unit {0})
on_bytes none = pure tt
on_bytes (some []) = pure tt
on_bytes (some (b ∷ bs)) = do say ">>>主进程收到管道数据: " []; run (write 2 (b ∷ bs))

unfoldable pub read_each : List ℕ → M (Unit {0})
read_each [] = pure tt
read_each (fd ∷ fds) =
    let later : M (Unit {0}) = read_each fds in (input 1024 (read fd 1024) >>= on_bytes) >> later

-- The reply names the descriptors with the events `EPOLLIN` alone as readable; the others are passed
-- over by the loop.
unfoldable pub on_ready : Option ℕ → List ℕ → M (Next (Unit {0}) (Unit {0}))
on_ready none fds = pure (finish tt)
on_ready (some ready) fds = do read_each (take 8 fds); pure (again tt)

unfoldable pub wait_round : ℕ → Unit {0} → M (Next (Unit {0}) (Unit {0}))
wait_round ep _ = do
  say ">>>主进程epoll等待管道读取端数据...\n" []
  r ← sys (epoll_wait ep none)
  on_ready r.result r.readable

unfoldable pub leave_parent : ℕ → ℕ → M (Unit {0})
leave_parent ep src = do say ">>>主进程关闭epoll实例并关闭管道读取端\n" []; run (close ep); run (close src); exit 0

unfoldable pub after_add : ℕ → ℕ → ℕ → Option ℕ → M (Unit {0})
after_add fuel src ep none = exit 1
after_add fuel src ep (some _) = do
  say ">>>主进程将管道读取端加入epoll兴趣列表\n" []
  loop fuel (wait_round ep) tt
  leave_parent ep src

unfoldable pub after_create : ℕ → ℕ → Option ℕ → M (Unit {0})
after_create fuel src none = exit 1
after_create fuel src (some ep) = do
  say ">>>主进程创建epoll实例\n" []
  number (epoll_add ep src) >>= after_add fuel src ep

unfoldable pub after_close : ℕ → ℕ → Option ℕ → M (Unit {0})
after_close fuel src none = exit 1
after_close fuel src (some _) = do
  say ">>>主进程关闭管道写入端\n" []
  number epoll_create >>= after_create fuel src

unfoldable pub parent : ℕ → ℕ → ℕ → M (Unit {0})
parent fuel src dst = number (close dst) >>= after_close fuel src

-- The `switch` on what `fork` returned; without a child the process goes on as a parent.
unfoldable pub branch : ℕ → ℕ → ℕ → Option ℕ → M (Unit {0})
branch fuel src dst none = parent fuel src dst
branch fuel src dst (some zero) = child fuel src dst
branch fuel src dst (some (suc pid)) = parent fuel src dst

unfoldable pub after_pipe : ℕ → ℕ → ℕ → Option ℕ → M (Unit {0})
after_pipe fuel src dst none = do say "mkpipe failure...\n" []; exit 1
after_pipe fuel src dst (some _) = do say ">>>创建管道成功\n" []; number fork >>= branch fuel src dst

-- The two ends of the pipe are the descriptors that the reply to `pipe` names readable and writable.
unfoldable pub main : ℕ → M (Unit {0})
main fuel = do
  say "epoll I/O 管道测试\n\n" []
  ends ← sys pipe
  after_pipe fuel (pair_at 0 ends.readable) (pair_at 0 ends.writable) ends.result
