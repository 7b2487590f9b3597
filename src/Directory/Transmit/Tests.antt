-- ===== src/Directory/Transmit/Tests.antt =====
-- A datagram that the socket takes in two parts.
use general_tools.Common.{true, codes}
use general_tools.BufferPool.{BufferPool}
use general_tools.BufferPool
use general_tools.TopicStore
use general_tools.Directory.{Directory}
use general_tools.Directory

abbrev node : Directory
unfolding Directory.init TopicStore.init
node = Directory.init (codes "n") (codes "a") (codes "u") 0

abbrev pool : BufferPool
unfolding BufferPool.init
pool = BufferPool.init 5000 1500 2 true
