-- ===== src/User/Examples.antt =====
-- The first fork of user/idle.c.
use sky_os.Base.{◌≡◌, ◌≢◌}
use sky_os.Base.Runs.{done-result}
use sky_os.Process.Examples.{world, bump, flat}
use sky_os.Syscall.Examples.{forked, forked_done, world_live}
use sky_os.User.{idle}
use sky_os.User.Processes.{idle-sys_fork}

idle-sys_fork_example :
    (idle (forked.1.kernel.task world.kernel.current_task).context.a0 1 ≡ 0)
    × (idle (forked.1.kernel.task forked.0).context.a0 1 ≢ 0)
idle-sys_fork_example =
    idle-sys_fork flat bump world 1 world_live world_live (done-result (0, world) _ forked_done)
